-- ===== src/Ledger/Tests.antt =====
-- Ledgers of two records, under a hash function that marks its input and under a constant one.
use Prim.Native.String.{◌++◌ as join}
use qcg_task.Prelude.{String, ◌≡◌, refl, some, err, List, [], ◌∷◌}
use qcg_task.Prelude.Json.{Hashing}
use qcg_task.Ledger.Defs.{
  ExecutionRecord, empty_ledger, append, append_all, invalid_previous_hash, get_merkle_root,
  root_of,
}
use qcg_task.Ledger.Integrity.{built_chain_verifies, tamper_evident, hashes_of}

abbrev marking : Hashing
marking = record { dumps = λ v. "document"; sha256 = λ s. join "#" s; uuid5 = λ s. s }

abbrev constant : Hashing
constant = record {
  dumps = λ v. "document";
  sha256 = λ s. "0123456789abcdef0123456789abcdef0123456789abcdef0123456789abcdef";
  uuid5 = λ s. s;
}

abbrev executed : String → String → ExecutionRecord
executed hash previous = record {
  execution_id = "e";
  trace_id = "t";
  replay_reference = "";
  execution_sequence = 1;
  producer_identity = "p";
  runtime_identity = "RUNTIME_CORE_1";
  governance_identity = "GOVERNANCE_LAYER";
  execution_status = "ACK:OK";
  runtime_hash = "r";
  execution_hash = hash;
  previous_execution_hash = previous;
  execution_root_hash = "";
  schema_version = "1.0.0";
}

abbrev run : List ExecutionRecord
run = executed "one" "#GENESIS" ∷ executed "stray" "elsewhere" ∷ executed "two" "" ∷ []

two_kept : hashes_of (append_all marking run (empty_ledger marking)).records ≡ "one" ∷ "two" ∷ []
unfolding append_all append
two_kept = refl

stray_refused :
    append marking (executed "stray" "elsewhere") (empty_ledger marking)
    ≡ err (invalid_previous_hash "#GENESIS" "elsewhere")
unfolding append
stray_refused = refl

root_of_two :
    get_merkle_root marking (append_all marking run (empty_ledger marking))
    ≡ some "###GENESISone###GENESISonetwo"
unfolding get_merkle_root append_all append root_of
root_of_two = refl

-- two ledgers whose records differ in a field that no hash covers
abbrev left : List ExecutionRecord
left = executed "one" "" ∷ []

abbrev right : List ExecutionRecord
right = record (executed "one" "") { trace_id = "elsewhere" } ∷ []

tamper_evident_example : hashes_of left ≡ hashes_of right
unfolding append_all append
tamper_evident_example =
    tamper_evident constant (λ s. refl) (append_all constant left (empty_ledger constant))
      (append_all constant right (empty_ledger constant)) (built_chain_verifies constant left)
      (built_chain_verifies constant right) refl refl ((λ e. refl, tt), tt)
