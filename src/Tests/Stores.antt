-- ===== src/Tests/Stores.antt =====
-- The theorems on challenges, limits and nonces at concrete inputs.
use guardian_wallet.Prelude.{
  ◌+◌, ◌<◌, ℕ, ◌≤◌, ◌≡◌, ◌≢◌, refl, none, some, List, [], ◌∷◌, codes, text_eq, to_lower, arith,
}
use guardian_wallet.Prelude.Dict.{lookup, insert, delete, HasUniqueKeys, retain}
use guardian_wallet.Prelude.Effects.{ok, returns}
use guardian_wallet.Auth.Challenges.{default_options, Store, cleanup, set, get, consume}
use guardian_wallet.Auth.RateLimit.{
  RateLimitEntry, RateLimitGuard, Request, window_ms, Refusal, refused, normalized, trim_start,
  trim_end, email_entry, can_activate, record_verify_failure, max_requests, EmailRateLimitEntry,
  new_email_entry, email_of,
}
use guardian_wallet.Auth.RateLimit.Lockout.{run, lockout_holds}
use guardian_wallet.Auth.RateLimit.Window.{admitted_count, admitted_count_le}
use guardian_wallet.Auth.Challenges.Spec.{
  setting, consuming, getting, Call, AllowsAll, answers, stored, found,
}
use guardian_wallet.Auth.Challenges.Refinement.{answers_refine}
use guardian_wallet.Chains.Nonces.Least.{counter, IsLeastFree, get_next_returns}
use guardian_wallet.Chains.Nonces.{NonceManager, get_next, issue, skip, reserved_of}
use guardian_wallet.Chains.Nonces.Reuse.{
  Operation, next, releasing, run as run_operations, get_next_distinct,
}

abbrev no_challenges : Store
no_challenges = []

set-ok : (set default_options (codes "auth:a@b.c") (codes "c1") 1000 1001 no_challenges).0 ≡ ok tt
unfolding set cleanup retain
set-ok = refl

abbrev one_challenge : Store
one_challenge = (codes "auth:a@b.c", record { challenge = codes "c1"; created_at = 1001 }) ∷ []

one_challenge-HasUniqueKeys : HasUniqueKeys one_challenge
unfolding lookup
one_challenge-HasUniqueKeys = (refl, tt)

abbrev login : Request
login = record { ip = codes "10.0.0.1"; path = codes "/auth/login"; email = some (codes "A@b.c ") }

-- Nine failures so far.
abbrev failing : EmailRateLimitEntry
failing = record (new_email_entry 1000) { verify_failures = 9 }

abbrev guard : RateLimitGuard
guard = record { requests = []; email_limits = (codes "a@b.c", failing) ∷ []; last_cleanup = 0 }

nine : 9 ≤ (email_entry (normalized (codes "a@b.c")) 2000 guard).verify_failures
unfolding email_entry normalized trim_start trim_end to_lower lookup text_eq
nine = omega arith

same_email : email_of login.email ≡ some (normalized (codes "a@b.c"))
unfolding normalized trim_start trim_end to_lower
same_email = refl

lockout_holds_example :
    (r : Refusal) × ((can_activate login 300000 (
        run
          ((login, 3000) ∷ (login, 200000) ∷ [])
          (record_verify_failure (codes "a@b.c") 2000 guard))).0
      ≡ refused r)
lockout_holds_example =
    lockout_holds (codes "a@b.c") 2000 guard ((login, 3000) ∷ (login, 200000) ∷ []) login 300000
      nine (omega arith, (omega arith, tt)) same_email (omega arith)

-- The window of the address is over, and no clean-up was due.
abbrev used_up : RateLimitEntry
used_up = record { count = 101; window_start = 0 }

abbrev lapsed_guard : RateLimitGuard
lapsed_guard = record guard { requests = (codes "10.0.0.1", used_up) ∷ []; last_cleanup = 65000 }

used_up-lapsed : (e : RateLimitEntry) → some used_up ≡ some e → e.window_start + window_ms < 70000
used_up-lapsed e h = let is : used_up ≡ e = cc (h) in rw (← is) (omega arith)

admitted_count_le_example :
    admitted_count (codes "10.0.0.1") ((login, 70000) ∷ (login, 71000) ∷ []) lapsed_guard
    ≤ max_requests
unfolding lookup text_eq
admitted_count_le_example =
    admitted_count_le (codes "10.0.0.1") 70000 ((login, 70000) ∷ (login, 71000) ∷ []) lapsed_guard
      (refl, tt) used_up-lapsed ((omega arith, omega arith), ((omega arith, omega arith), tt))

abbrev nonce_manager : NonceManager
nonce_manager = record { nonces = []; reserved = [] }

first_nonce : (get_next (codes "0xAB") (returns 7) nonce_manager).0 ≡ ok 7
unfolding get_next issue skip lookup reserved_of
first_nonce = refl

abbrev seven : ℕ
seven = 7

abbrev eight : ℕ
eight = 8

-- A failed transaction with another nonce in between, and the address in lower case.
abbrev between : List Operation
between = next (codes "0xab") (returns 3) ∷ releasing (codes "0xAB") eight ∷ []

not_eight : ¬ ((to_lower (codes "0xAB") ≡ to_lower (codes "0xAB")) × (eight ≡ seven))
not_eight e = cc (e.1)

get_next_distinct_example :
    (get_next
      (codes "0xab")
      (returns 7)
      (run_operations between (get_next (codes "0xAB") (returns 7) nonce_manager).1)).0
    ≢ ok 7
unfolding to_lower
get_next_distinct_example =
    get_next_distinct (codes "0xAB") (codes "0xab") (returns 7) (returns 7) 7 nonce_manager between
      first_nonce (tt, (not_eight, tt)) refl

abbrev calls : List Call
calls =
    setting (codes "auth:a@b.c") (codes "c1") 1000 1001
    ∷ consuming (codes "auth:a@b.c") 2000 2001
    ∷ getting (codes "auth:a@b.c") 3000 3001
    ∷ []

answers_refine_example :
    AllowsAll default_options calls (λ key. none) (answers default_options calls [])
answers_refine_example =
    answers_refine default_options calls
      (omega arith, omega arith, (omega arith, omega arith, (omega arith, omega arith, tt)))

-- The challenge is found once.
found_once : answers default_options calls [] ≡ stored ∷ found (some (codes "c1")) ∷ found none ∷ []
unfolding set get consume cleanup insert retain delete lookup text_eq
found_once = refl

-- The nonces 5 and 6 are reserved.
abbrev busy : NonceManager
busy = record { nonces = (codes "0xa", 5) ∷ []; reserved = (codes "0xa", 5 ∷ 6 ∷ []) ∷ [] }

cached_five : counter (codes "0xA") (returns 9) busy ≡ some 5
unfolding lookup text_eq to_lower
cached_five = refl

get_next_returns_example :
    (n : ℕ) × ((get_next (codes "0xA") (returns 9) busy).0 ≡ ok n)
    × IsLeastFree 5 n (reserved_of (to_lower (codes "0xA")) busy)
get_next_returns_example = get_next_returns (codes "0xA") (returns 9) busy 5 cached_five
