-- ===== src/Trust/Identity.antt =====
-- node_identity.py: identities, signing and the verification of a proof. The curve itself belongs to
-- the `cryptography` package, and is a parameter.
use qcg_task.Prelude.{String, ◌≡◌, Bool, true, false, not, ◌==◌, if◌then◌else◌}
use qcg_task.Prelude.Json.{Json, Hashing}

-- What the program takes from `cryptography`, keys and signatures being hexadecimal texts.
-- `verify key signature content` is `false` for a signature that does not fit and for any malformed
-- input, where the package raises and the caller answers no.
pub record Ecdsa : Type 0 where
  pub public_key : String → String
  pub sign : String → String → String
  pub verify : String → String → String → Bool

-- A signature of a private key verifies under its public key, and is not empty.
pub record IsCorrect (e : Ecdsa) : Type 0 where
  pub verifies :
      (key content : String) → e.verify (e.public_key key) (e.sign key content) content ≡ true
  pub signs : (key content : String) → (e.sign key content == "") ≡ false

pub record NodeIdentity : Type 0 where
  pub node_id : String
  pub public_key : String
  pub node_role : String
  pub version : String

pub record NodeProof : Type 0 where
  pub node_id : String
  pub signature : String
  pub signed_hash : String

pub record NodeSigner : Type 0 where
  pub private_key : String
  pub identity : NodeIdentity

-- What is signed: a text is signed as it is, and a dictionary as its canonical text.
pub data Payload : Type 0 where
  plain : String → Payload
  document : Json → Payload

-- `NodeSigner(node_id, node_role, version)`, with the key that was generated for it
abbrev pub new_signer : Ecdsa → String → String → String → String → NodeSigner
new_signer e key node_id node_role version = record {
  private_key = key;
  identity = record {
    node_id = node_id;
    public_key = e.public_key key;
    node_role = node_role;
    version = version;
  };
}

module _ (h : Hashing) where
  abbrev pub payload_text : Payload → String
  payload_text (plain s) = s
  payload_text (document v) = h.dumps v

  abbrev pub sign_payload : Ecdsa → NodeSigner → Payload → NodeProof
  sign_payload e s p = record {
    node_id = s.identity.node_id;
    signature = e.sign s.private_key (payload_text p);
    signed_hash = h.sha256 (payload_text p);
  }

  -- `verify_node_proof` with a payload. Every caller passes one.
  abbrev pub verify_node_proof : Ecdsa → NodeProof → String → Payload → Bool
  verify_node_proof e proof public_key_hex p =
      if not (h.sha256 (payload_text p) == proof.signed_hash)
      then false
      else e.verify public_key_hex proof.signature (payload_text p)
