-- ===== src/Tests/BlockLists.antt =====
-- A block list with one entry.
use anvil_notify.Prelude.{◌≡◌, ◌↔◌, refl, ◌⊎◌, true, false, String, none, List, [], ◌∷◌}
use anvil_notify.Common.Error.{ok, err, is_ok, database}
use anvil_notify.Store.BlockList.{BlockListEntry, Outside, BlockListStore, upsert, add_entry, check}
use anvil_notify.Store.BlockList.Snapshots.{Permitted, policy}
use anvil_notify.Store.BlockList.Store.{
  IsReliable, IsCoherent, Call, checking, adding, removing, call, calls, call-IsCoherent,
}
use anvil_notify.Store.BlockList.Refinement.{Effect, call_refines, check_refines, added_blocks}

abbrev surroundings : Outside
surroundings = record {
  to_lowercase = λ s. s;
  sql_lower = λ s. s;
  now = λ n. n;
  fresh_id = λ n. n;
  db_fault = λ n. none;
  check_violation = "violates check constraint";
  holds = λ n. true;
}

reliable : IsReliable surroundings
reliable = record { folds = λ v. refl; fresh = λ m n. refl }

abbrev no_entries : BlockListStore
no_entries = record { step = 0; rows = []; cached = none }

coherent : IsCoherent surroundings no_entries
coherent = record { valid = tt; known = tt; cache = λ snap q. cc q }

abbrev add_bob : Call
add_bob = adding "blocked_email" "bob@mail.example" none

call-IsCoherent_example : IsCoherent surroundings (call surroundings add_bob no_entries)
call-IsCoherent_example = call-IsCoherent surroundings reliable add_bob no_entries coherent

call_refines_example :
    Effect surroundings no_entries (policy (call surroundings add_bob no_entries).rows) add_bob
call_refines_example = call_refines surroundings reliable add_bob no_entries coherent

abbrev history : List Call
history = checking "eve@mail.example" ∷ add_bob ∷ checking "bob@mail.example" ∷ removing 1 ∷ []

check_refines_example :
    let s' = calls surroundings history no_entries in
    let answer = (check surroundings "bob@mail.example" s').0 in
    ((e : String) × (answer ≡ err (database e)))
    ⊎ ((is_ok answer ≡ true)
        ↔ Permitted surroundings.to_lowercase (policy s'.rows) "bob@mail.example")
check_refines_example =
    check_refines surroundings reliable "bob@mail.example" history no_entries coherent

abbrev bob_entry : BlockListEntry
bob_entry = record {
  id = 0;
  kind = "blocked_email";
  value = "bob@mail.example";
  reason = none;
  active = true;
  created_at = 0;
}

bob_added :
    (add_entry surroundings "blocked_email" "bob@mail.example" none no_entries).0 ≡ ok bob_entry
unfolding add_entry upsert
bob_added = refl

abbrev afterwards : List Call
afterwards = checking "bob@mail.example" ∷ adding "allowed_email" "bob@mail.example" none ∷ []

added_blocks_example :
    is_ok
      (check surroundings "bob@mail.example" (
        calls surroundings afterwards
          (add_entry surroundings "blocked_email" "bob@mail.example" none no_entries).1)).0
    ≡ false
added_blocks_example =
    added_blocks surroundings reliable "bob@mail.example" "bob@mail.example" none no_entries
      bob_entry afterwards coherent bob_added refl refl
