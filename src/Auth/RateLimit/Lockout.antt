-- ===== src/Auth/RateLimit/Lockout.antt =====
-- An account that is locked stays locked, whatever requests come.
use guardian_wallet.Prelude.{
  ℕ, ◌+◌, ◌≤◌, ◌<◌, ◌≡◌, refl, ap, lt→ltb, ◌∙◌, false, not, ◌&&◌, some, List, [], ◌∷◌, ltb, Text,
  text_eq, text_eq_iff, text_eq_refl, All, Bool-cases, Option-cases, inl, inr, arith,
}
use guardian_wallet.Prelude.Dict.{lookup, lookup-insert, lookup-retain_kept}
use guardian_wallet.Auth.RateLimit.{
  EmailRateLimitEntry, RateLimitGuard, Refusal, Verdict, admitted, refused, Request, normalized,
  email_of, is_past, email_entry, put_email, cleanup, tidy, check_ip, counted, count_send,
  count_challenge, check_challenge, check_send, check_email, after_ip, can_activate,
  record_verify_failure, count_failure, otp_send_window_ms, lockout_duration_ms,
}

-- The guard after a sequence of requests, each with the time at which it comes.
unfoldable pub run : List (Request × ℕ) → RateLimitGuard → RateLimitGuard
run [] guard = guard
run ((request, now) ∷ events) guard = run events (can_activate request now guard).1

-- The entry of an address of mail is locked at least until a time.
pub record IsLocked (email : Text) (until : ℕ) (guard : RateLimitGuard) : Type 0 where
  pub entry : EmailRateLimitEntry
  pub present : lookup email guard.email_limits ≡ some entry
  pub late : until ≤ entry.locked_until

module _ (email : Text) (until : ℕ) where
  tidy-IsLocked :
      (now : ℕ) (guard : RateLimitGuard)
      → now < until
      → IsLocked email until guard
      → IsLocked email until (tidy now guard)
  unfolding tidy cleanup
  tidy-IsLocked now guard l h = elim (Bool-cases (is_past now guard.last_cleanup 60000)) [
    | inl due ↦
        rw (due, tidy)
          (record {
            entry = h.entry;
            present =
                lookup-retain_kept email
                  (λ e.
                    not (
                      is_past now e.send_window_start otp_send_window_ms && ltb e.locked_until now))
                  guard.email_limits h.entry h.present (ground (arith, h.late));
            late = h.late;
          })
    | inr early ↦ rw (early, tidy) h
  ]

  check_ip-email_limits :
      (ip : Text) (now : ℕ) (guard : RateLimitGuard)
      → (check_ip ip now guard).1.email_limits ≡ guard.email_limits
  unfolding check_ip counted
  check_ip-email_limits ip now guard = ground arith

  -- A request for another address leaves the entry as it is.
  check_email-other :
      (other path : Text) (now : ℕ) (guard : RateLimitGuard)
      → text_eq other email ≡ false
      → lookup email (check_email other path now guard).1.email_limits
        ≡ lookup email guard.email_limits
  unfolding check_email check_send check_challenge
  check_email-other other path now guard d =
      let e = email_entry other now guard in
      ground (
        arith,
        lookup-insert other email e guard.email_limits,
        lookup-insert other email (count_send now e) guard.email_limits,
        lookup-insert other email (count_challenge now e) guard.email_limits,
        lookup-insert other email (count_challenge now (count_send now e)) guard.email_limits,
      )

  -- A request for the locked address is refused, and writes the entry back.
  check_email-locked :
      (path : Text) (now : ℕ) (guard : RateLimitGuard) (h : IsLocked email until guard)
      → now < until
      → (r : Refusal) × (check_email email path now guard
          ≡ (refused r, put_email email h.entry guard))
  unfolding check_email email_entry
  check_email-locked path now guard h l =
      rw
        (
          h.present,
          lt→ltb now h.entry.locked_until (omega (arith, h.late)),
          check_email,
          email_entry,
        )
        (_, refl)

  after_ip-IsLocked :
      (request : Request) (now : ℕ) (p : Verdict × RateLimitGuard)
      → now < until
      → IsLocked email until p.1
      → IsLocked email until (after_ip request now p).1
  after_ip-IsLocked request now (refused r, guard) l h = h
  after_ip-IsLocked request now (admitted, guard) l h =
      elim (Option-cases (email_of request.email)) [
        | inl absent ↦ rw (absent, after_ip) h
        | inr (other, given) ↦ elim (Bool-cases (text_eq other email)) [
          | inl same ↦
              let (r, c) = check_email-locked request.path now guard h l in
              rw (given, (text_eq_iff other email).0 same, c, after_ip)
                (record {
                  entry = h.entry;
                  present =
                      lookup-insert email email h.entry guard.email_limits
                      ∙ rw (text_eq_refl email) refl;
                  late = h.late;
                })
          | inr different ↦
              rw (given, after_ip)
                (record {
                  entry = h.entry;
                  present = check_email-other other request.path now guard different ∙ h.present;
                  late = h.late;
                })
        ]
      ]

  check_ip-IsLocked :
      (request : Request) (now : ℕ) (guard : RateLimitGuard)
      → IsLocked email until guard
      → IsLocked email until (check_ip request.ip now guard).1
  check_ip-IsLocked request now guard h = record {
    entry = h.entry;
    present = ap (λ m. lookup email m) (check_ip-email_limits request.ip now guard) ∙ h.present;
    late = h.late;
  }

  can_activate-IsLocked :
      (request : Request) (now : ℕ) (guard : RateLimitGuard)
      → now < until
      → IsLocked email until guard
      → IsLocked email until (can_activate request now guard).1
  unfolding can_activate
  can_activate-IsLocked request now guard l h =
      after_ip-IsLocked request now (check_ip request.ip now (tidy now guard)) l
        (check_ip-IsLocked request now (tidy now guard) (tidy-IsLocked now guard l h))

  run-IsLocked :
      (events : List (Request × ℕ)) (guard : RateLimitGuard)
      → All (λ e. e.1 < until) events
      → IsLocked email until guard
      → IsLocked email until (run events guard)
  unfolding run
  run-IsLocked [] guard l h = h
  run-IsLocked ((request, now) ∷ events) guard l h =
      run-IsLocked events _ l.1 (can_activate-IsLocked request now guard l.0 h)

  after_ip-refused :
      (request : Request) (now : ℕ) (p : Verdict × RateLimitGuard)
      → email_of request.email ≡ some email
      → now < until
      → IsLocked email until p.1
      → (r : Refusal) × ((after_ip request now p).0 ≡ refused r)
  after_ip-refused request now (refused r, guard) e l h = (r, refl)
  after_ip-refused request now (admitted, guard) e l h =
      let (r, c) = check_email-locked request.path now guard h l in rw (e, c, after_ip) (r, refl)

record_verify_failure-IsLocked :
    (email : Text) (t : ℕ) (guard : RateLimitGuard)
    → 9 ≤ (email_entry (normalized email) t guard).verify_failures
    → IsLocked (normalized email) (t + lockout_duration_ms) (record_verify_failure email t guard)
unfolding record_verify_failure
record_verify_failure-IsLocked email t guard h = record {
  entry = count_failure t (email_entry (normalized email) t guard);
  present =
      lookup-insert (normalized email) (normalized email)
        (count_failure t (email_entry (normalized email) t guard)) guard.email_limits
      ∙ rw (text_eq_refl (normalized email)) refl;
  late = ground arith;
}

-- After the tenth failure to verify, whatever requests come in the next 15 minutes, each request for that
-- address of mail in them is refused, on every path.
pub lockout_holds :
    (email : Text) (t : ℕ) (guard : RateLimitGuard) (events : List (Request × ℕ))
    (request : Request) (now : ℕ)
    → 9 ≤ (email_entry (normalized email) t guard).verify_failures
    → All (λ e. e.1 < t + lockout_duration_ms) events
    → email_of request.email ≡ some (normalized email)
    → now < t + lockout_duration_ms
    → (r : Refusal) × ((can_activate request now
          (run events (record_verify_failure email t guard))).0
        ≡ refused r)
unfolding can_activate
lockout_holds email t guard events request now h times e l =
    let until = t + lockout_duration_ms in
    let start = record_verify_failure-IsLocked email t guard h in
    let k =
      run-IsLocked (normalized email) until events (record_verify_failure email t guard) times
        start in
    let after = run events (record_verify_failure email t guard) in
    after_ip-refused (normalized email) until request now (check_ip request.ip now (tidy now after))
      e l
      (check_ip-IsLocked (normalized email) until request now (tidy now after)
        (tidy-IsLocked (normalized email) until now after l k))
