-- ===== src/Witnesses/Boundary.antt =====
-- The theorems on the safety boundary, the audited store and the backoff, at concrete inputs.
use mathlib.Core.List.{Permᴰ}
use teldrive_lab.Prelude.{
  ◌+◌, ◌-◌, ◌*◌, ◌≤◌, String, true, false, Option, none, some, List, [], ◌∷◌, ◌++◌, ◌≡◌, refl,
  arith, any_by, ◌↔◌, ◌⊎◌, pos,
}
use teldrive_lab.Exec.{ok}
use teldrive_lab.Safety.{Operation, is_mutating, AuthorizationReceipt}
use teldrive_lab.Safety.Paths
use teldrive_lab.Safety.Paths.{Host, resolve, is_protected}
use teldrive_lab.Safety.Policy.{for_paths, receipt_for, authorize}
use teldrive_lab.Safety.Laws.{Approves, authorize_iff, named, issued_receipt_iff}
use teldrive_lab.Safety.Boundary.{unconfigured, below_protected}
use teldrive_lab.JobLifecycle.{Stores, Stamp}
use teldrive_lab.JobLifecycle.Calls.{cancels, plain, audited, logged}
use teldrive_lab.JobLifecycle.Laws.{Logs, audited_lem}
use teldrive_lab.Retry.{delay, default_policy, raw_delay, one}
use teldrive_lab.Retry.Laws.{IsPolicy, unit, delay_bounds}
use teldrive_lab.Witnesses.Sample.{claimed_table}

abbrev pub host : Host
host = record {
  cwd = "work" ∷ [];
  real = λ parts. parts;
  expanduser = λ p. p;
  protected_roots_env = "/vault";
  protected_state_env = "";
}

abbrev no_receipt : Option AuthorizationReceipt
no_receipt = none

abbrev there_and_back : List String
there_and_back = "/srv/a" ∷ "/srv/b" ∷ []

abbrev back_and_there : List String
back_and_there = "/srv/b" ∷ "/srv/a" ∷ []

authorize_iff_example :
    ((authorize host Operation.write ("/srv/a" ∷ []) true no_receipt).allowed ≡ true) ↔ (
      (is_mutating Operation.write ≡ false)
      ⊎ ((any_by (is_protected host) ("/srv/a" ∷ []) ≡ false)
          × (((r : AuthorizationReceipt) × (no_receipt ≡ some r)
                × Approves host Operation.write ("/srv/a" ∷ []) r)
              ⊎ ((no_receipt ≡ none) × (true ≡ true)))))
authorize_iff_example = authorize_iff host Operation.write ("/srv/a" ∷ []) true no_receipt

vault_protected : any_by (is_protected host) ("/srv/a" ∷ "/vault/b" ∷ []) ≡ true
unfolding is_protected Paths.protected_roots Paths.is_within Paths.resolve_path resolve
    Paths.protected_state
vault_protected = refl

abbrev receipt : AuthorizationReceipt
receipt = receipt_for host Operation.transfer there_and_back "id"

issued : for_paths host Operation.transfer there_and_back "id" ≡ ok receipt
unfolding for_paths is_mutating receipt_for
issued = refl

issued_receipt_iff_example :
    ((authorize host Operation.transfer back_and_there false (some receipt)).allowed ≡ true) ↔ (
      (is_mutating Operation.transfer ≡ false)
      ⊎ ((Operation.transfer ≡ Operation.transfer)
          × Permᴰ (named host there_and_back) (named host back_and_there)
          × (any_by (is_protected host) back_and_there ≡ false)))
issued_receipt_iff_example =
    issued_receipt_iff host Operation.transfer Operation.transfer there_and_back back_and_there "id"
      false receipt issued

below : resolve host "/vault/x/y" ≡ resolve host "/vault" ++ "x" ∷ "y" ∷ []
unfolding resolve
below = refl

vault_itself : is_protected host "/vault" ≡ true
unfolding is_protected Paths.protected_roots Paths.is_within Paths.resolve_path resolve
vault_itself = refl

below_protected_example : is_protected host "/vault/x/y" ≡ true
below_protected_example =
    below_protected host "/vault" "/vault/x/y" ("x" ∷ "y" ∷ []) below vault_itself

builtin_protected : is_protected (unconfigured host) "/home/thakuralok/teldrive/x" ≡ true
unfolding is_protected Paths.protected_roots Paths.is_within Paths.resolve_path resolve
builtin_protected = refl

abbrev pub stamp : Stamp
stamp = record { event_id = "e"; timestamp = 9 }

abbrev pub stores : Stores
stores = record { jobs = claimed_table; events = [] }

audited_lem_example :
    Logs
      (audited (cancels "a" 9) stamp)
      (plain (cancels "a" 9))
      (logged stamp (cancels "a" 9))
      stores
audited_lem_example = audited_lem (cancels "a" 9) stamp stores

second_delay : delay default_policy (pos 2) (pos 500000) ≡ ok (4000000 * unit)
unfolding delay
second_delay = refl

default_IsPolicy : IsPolicy default_policy
default_IsPolicy = record {
  some_attempt = omega arith;
  ordered = omega arith;
  fraction = omega arith;
}

delay_bounds_example :
    (raw_delay default_policy 2 * ((one - default_policy.jitter) * one) ≤ 4000000 * unit)
    × (4000000 * unit ≤ default_policy.max_delay * unit)
delay_bounds_example =
    delay_bounds default_policy default_IsPolicy 2 (omega arith) 500000 (4000000 * unit)
      second_delay

third_delay : delay default_policy (pos (1 + 2)) (pos 500000) ≡ ok (8000000 * unit)
unfolding delay
third_delay = refl
