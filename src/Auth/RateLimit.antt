-- ===== src/Auth/RateLimit.antt =====
-- The limits on authentication requests: packages/server/src/auth/rate-limit.guard.ts.
pub mod Lockout
pub mod Window
use guardian_wallet.Prelude.{
  ℕ, ◌+◌, ◌-◌, ◌*◌, ◌/◌, Bool, false, not, ◌&&◌, Option, none, some, [], ◌∷◌, if◌then◌else◌, ltb,
  leb, Text, codes, text_eq, to_lower, length, slice_from, truthy, or_else,
}
use guardian_wallet.Prelude.Dict.{Dict, lookup, insert, retain}
use guardian_wallet.Policy.Numerals.{is_space}

abbrev pub max_requests : ℕ
max_requests = 100

abbrev pub window_ms : ℕ
window_ms = 60000

abbrev pub cleanup_interval_ms : ℕ
cleanup_interval_ms = 60000

abbrev pub otp_send_max : ℕ
otp_send_max = 5

abbrev pub otp_send_window_ms : ℕ
otp_send_window_ms = 3600000

abbrev pub passkey_challenge_max : ℕ
passkey_challenge_max = 10

abbrev pub passkey_challenge_window_ms : ℕ
passkey_challenge_window_ms = 3600000

abbrev pub lockout_threshold : ℕ
lockout_threshold = 10

abbrev pub lockout_duration_ms : ℕ
lockout_duration_ms = 15 * 60000

pub record RateLimitEntry : Type 0 where
  pub count : ℕ
  pub window_start : ℕ

pub record EmailRateLimitEntry : Type 0 where
  pub send_count : ℕ
  pub send_window_start : ℕ
  pub challenge_count : ℕ
  pub challenge_window_start : ℕ
  pub verify_failures : ℕ
  pub locked_until : ℕ

pub record RateLimitGuard : Type 0 where
  pub requests : Dict RateLimitEntry
  pub email_limits : Dict EmailRateLimitEntry
  pub last_cleanup : ℕ

-- The four errors with status 429. `locked` tells the minutes that remain, rounded up.
pub data Refusal : Type 0 where
  too_many_requests : Refusal
  locked : (remaining_min : ℕ) → Refusal
  too_many_codes : Refusal
  too_many_attempts : Refusal

pub data Verdict : Type 0 where
  admitted : Verdict
  refused : Refusal → Verdict

-- What the guard reads of a request: the address, the path, and `body.email`.
pub record Request : Type 0 where
  pub ip : Text
  pub path : Text
  pub email : Option Text

-- `s.trim()`, over the ASCII white space.
unfoldable pub trim_start : Text → Text
trim_start [] = []
trim_start (c ∷ s) = let rest = trim_start s in if is_space c then rest else c ∷ s

unfoldable pub trim_end : Text → Text
trim_end [] = []
trim_end (c ∷ s) = elim (trim_end s) [
  | [] ↦ if is_space c then [] else c ∷ []
  | d ∷ rest ↦ c ∷ d ∷ rest
]

-- `email.toLowerCase().trim()`
unfoldable pub normalized : Text → Text
normalized email = trim_end (trim_start (to_lower email))

abbrev pub email_of : Option Text → Option Text
email_of none = none
email_of (some email) = truthy (some (normalized email))

-- `s.endsWith(part)`
unfoldable pub ends_with : Text → Text → Bool
ends_with s part =
    leb (length part) (length s) && text_eq (slice_from (length s - length part) s) part

abbrev pub is_login : Text → Bool
is_login path = ends_with path (codes "/login")

abbrev pub is_challenge : Text → Bool
is_challenge path = ends_with path (codes "/passkey/login-challenge")

-- `now - start > window`: a clock that went back is below 0, which does not exceed it.
abbrev pub is_past : ℕ → ℕ → ℕ → Bool
is_past now start window = ltb window (now - start)

abbrev pub new_email_entry : ℕ → EmailRateLimitEntry
new_email_entry now = record {
  send_count = 0;
  send_window_start = now;
  challenge_count = 0;
  challenge_window_start = now;
  verify_failures = 0;
  locked_until = 0;
}

-- `getOrCreateEmailEntry`, without the write of the new entry, which its callers make with theirs.
unfoldable pub email_entry : Text → ℕ → RateLimitGuard → EmailRateLimitEntry
email_entry email now guard = or_else (lookup email guard.email_limits) (new_email_entry now)

abbrev pub put_email : Text → EmailRateLimitEntry → RateLimitGuard → RateLimitGuard
put_email email entry guard = record guard { email_limits = insert email entry guard.email_limits }

-- `cleanup`
unfoldable pub cleanup : ℕ → RateLimitGuard → RateLimitGuard
cleanup now guard = record guard {
  requests = retain (λ e. not (is_past now e.window_start window_ms)) guard.requests;
  email_limits =
      retain
        (λ e. not (is_past now e.send_window_start otp_send_window_ms && ltb e.locked_until now))
        guard.email_limits;
}

unfoldable pub tidy : ℕ → RateLimitGuard → RateLimitGuard
tidy now guard =
    if is_past now guard.last_cleanup cleanup_interval_ms
    then record (cleanup now guard) { last_cleanup = now }
    else guard

abbrev pub put_request : Text → RateLimitEntry → RateLimitGuard → RateLimitGuard
put_request ip entry guard = record guard { requests = insert ip entry guard.requests }

-- The limit by address. The count is raised before it is compared.
unfoldable pub counted : Text → RateLimitEntry → RateLimitGuard → Verdict × RateLimitGuard
counted ip entry guard = (
  if ltb max_requests entry.count then refused too_many_requests else admitted,
  put_request ip entry guard,
)

unfoldable pub check_ip : Text → ℕ → RateLimitGuard → Verdict × RateLimitGuard
check_ip ip now guard = elim (lookup ip guard.requests) [
  | none ↦ (admitted, put_request ip (record { count = 1; window_start = now }) guard)
  | some entry ↦
      if is_past now entry.window_start window_ms
      then (admitted, put_request ip (record { count = 1; window_start = now }) guard)
      else counted ip (record entry { count = entry.count + 1 }) guard
]

-- The limit on codes sent to an address of mail.
unfoldable pub count_send : ℕ → EmailRateLimitEntry → EmailRateLimitEntry
count_send now e =
    if is_past now e.send_window_start otp_send_window_ms
    then record e { send_count = 1; send_window_start = now }
    else record e { send_count = e.send_count + 1 }

-- The limit on passkey challenges.
unfoldable pub count_challenge : ℕ → EmailRateLimitEntry → EmailRateLimitEntry
count_challenge now e =
    if is_past now e.challenge_window_start passkey_challenge_window_ms
    then record e { challenge_count = 1; challenge_window_start = now }
    else record e { challenge_count = e.challenge_count + 1 }

unfoldable pub check_challenge :
    Text → Text → ℕ → EmailRateLimitEntry → RateLimitGuard → Verdict × RateLimitGuard
check_challenge email path now e guard =
    if is_challenge path
    then (
      if ltb passkey_challenge_max (count_challenge now e).challenge_count
          then refused too_many_attempts
          else admitted,
      put_email email (count_challenge now e) guard,
    )
    else (admitted, put_email email e guard)

unfoldable pub check_send :
    Text → Text → ℕ → EmailRateLimitEntry → RateLimitGuard → Verdict × RateLimitGuard
check_send email path now e guard =
    if is_login path
    then if ltb otp_send_max (count_send now e).send_count
      then (refused too_many_codes, put_email email (count_send now e) guard)
      else check_challenge email path now (count_send now e) guard
    else check_challenge email path now e guard

unfoldable pub check_email : Text → Text → ℕ → RateLimitGuard → Verdict × RateLimitGuard
check_email email path now guard =
    let e = email_entry email now guard in
    if ltb now e.locked_until
    then (refused (locked ((e.locked_until - now + 59999) / 60000)), put_email email e guard)
    else check_send email path now e guard

abbrev pub after_ip : Request → ℕ → Verdict × RateLimitGuard → Verdict × RateLimitGuard
after_ip request now (refused r, guard) = (refused r, guard)
after_ip request now (admitted, guard) = elim (email_of request.email) [
  | none ↦ (admitted, guard)
  | some email ↦ check_email email request.path now guard
]

unfoldable pub can_activate : Request → ℕ → RateLimitGuard → Verdict × RateLimitGuard
can_activate request now guard = after_ip request now (check_ip request.ip now (tidy now guard))

-- One more failure, which locks the account from the tenth on.
abbrev pub count_failure : ℕ → EmailRateLimitEntry → EmailRateLimitEntry
count_failure now e = record e {
  verify_failures = e.verify_failures + 1;
  locked_until =
      if leb lockout_threshold (e.verify_failures + 1)
      then now + lockout_duration_ms
      else e.locked_until;
}

unfoldable pub record_verify_failure : Text → ℕ → RateLimitGuard → RateLimitGuard
record_verify_failure email now guard =
    put_email (normalized email) (count_failure now (email_entry (normalized email) now guard))
      guard

unfoldable pub record_verify_success : Text → RateLimitGuard → RateLimitGuard
record_verify_success email guard = elim (lookup (normalized email) guard.email_limits) [
  | none ↦ guard
  | some e ↦ put_email (normalized email) (record e { verify_failures = 0; locked_until = 0 }) guard
]

unfoldable pub is_locked_out : Text → ℕ → RateLimitGuard → Bool
is_locked_out email now guard = elim (lookup (normalized email) guard.email_limits) [
  | none ↦ false
  | some e ↦ ltb now e.locked_until
]
