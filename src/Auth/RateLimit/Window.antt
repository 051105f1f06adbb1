-- ===== src/Auth/RateLimit/Window.antt =====
-- How many requests an address gets through in a window.
use guardian_wallet.Prelude.{
  ℕ, ◌+◌, ◌-◌, ◌≤◌, ◌<◌, ◌⊎◌, ◌≡◌, refl, Bool, false, not, Option, none, some, List, [], ◌∷◌,
  if◌then◌else◌, Text, text_eq, text_eq_iff, text_eq_refl, All, Bool-cases, Option-cases, inl, inr,
  arith,
}
use guardian_wallet.Prelude.Dict.{
  lookup, HasUniqueKeys, lookup-insert, lookup-retain_kept, lookup-retain_dropped,
  lookup-retain-none, insert-HasUniqueKeys, retain-HasUniqueKeys,
}
use guardian_wallet.Auth.RateLimit.{
  RateLimitEntry, RateLimitGuard, Verdict, admitted, refused, Request, email_of, is_past, cleanup,
  tidy, check_ip, counted, check_challenge, check_send, check_email, after_ip, can_activate,
  window_ms, max_requests,
}

-- 1 for an admitted request of the address, and 0 otherwise.
abbrev pub hit : Text → Request → Verdict → ℕ
hit ip request (refused r) = 0
hit ip request admitted = if text_eq request.ip ip then 1 else 0

-- How many of the requests, each with its time, are admitted for the address.
unfoldable pub admitted_count : Text → List (Request × ℕ) → RateLimitGuard → ℕ
admitted_count ip [] guard = 0
admitted_count ip ((request, now) ∷ events) guard =
    hit ip request (can_activate request now guard).0
    + admitted_count ip events (can_activate request now guard).1

module _ (ip : Text) (t : ℕ) where
  -- The entry of the address, if there is one, was opened at `t` or later, or its window is over at `t`.
  abbrev IsRecent : Option RateLimitEntry → Type 0
  IsRecent none = Unit
  IsRecent (some e) = (t ≤ e.window_start) ⊎ (e.window_start + window_ms < t)

  -- What the address may still ask for: all, if its window is over at `t`.
  abbrev left : Option RateLimitEntry → ℕ
  left none = max_requests
  left (some e) =
      if is_past t e.window_start window_ms then max_requests else max_requests - e.count

  -- A clean-up takes at most an entry whose window is over at `t`.
  tidy-left :
      (now : ℕ) (guard : RateLimitGuard)
      → t ≤ now
      → now ≤ t + window_ms
      → HasUniqueKeys guard.requests
      → IsRecent (lookup ip guard.requests)
      → IsRecent (lookup ip (tidy now guard).requests)
        × (left (lookup ip (tidy now guard).requests) ≡ left (lookup ip guard.requests))
  unfolding tidy cleanup
  tidy-left now guard k l u h =
      let young : RateLimitEntry → Bool = λ e. not (is_past now e.window_start window_ms) in
      elim (Option-cases (lookup ip guard.requests)) [
        | inl absent ↦ ground (arith, lookup-retain-none ip young guard.requests absent)
        | inr (e, found) ↦ elim (rw found at h) [
          | inl recent ↦ ground (arith, recent, lookup-retain_kept ip young guard.requests e found)
          | inr over ↦ ground (arith, over, lookup-retain_dropped ip young guard.requests e u found)
        ]
      ]

  tidy-HasUniqueKeys :
      (now : ℕ) (guard : RateLimitGuard)
      → HasUniqueKeys guard.requests
      → HasUniqueKeys (tidy now guard).requests
  unfolding tidy cleanup
  tidy-HasUniqueKeys now guard u = ground (
    arith,
    retain-HasUniqueKeys (λ e. not (is_past now e.window_start window_ms)) guard.requests u,
  )

  check_email-requests :
      (email path : Text) (now : ℕ) (guard : RateLimitGuard)
      → (check_email email path now guard).1.requests ≡ guard.requests
  unfolding check_email check_send check_challenge
  check_email-requests email path now guard = ground arith

  after_ip-requests :
      (request : Request) (now : ℕ) (p : Verdict × RateLimitGuard)
      → (after_ip request now p).1.requests ≡ p.1.requests
  after_ip-requests request now (refused r, guard) = refl
  after_ip-requests request now (admitted, guard) = elim (Option-cases (email_of request.email)) [
    | inl absent ↦ rw (absent, after_ip) refl
    | inr (email, given) ↦ rw (given, after_ip) (check_email-requests email request.path now guard)
  ]

  -- The checks of mail addresses only refuse more.
  after_ip-hit :
      (request : Request) (now : ℕ) (p : Verdict × RateLimitGuard)
      → hit ip request (after_ip request now p).0 ≤ hit ip request p.0
  after_ip-hit request now (refused r, guard) = omega arith
  after_ip-hit request now (admitted, guard) = at_most (after_ip request now (admitted, guard)).0
    where
      at_most : (v : Verdict) → hit ip request v ≤ hit ip request admitted
      at_most admitted = omega arith
      at_most (refused r) = ground arith

  -- A request of another address takes nothing.
  check_ip-other :
      (request : Request) (now : ℕ) (guard : RateLimitGuard)
      → text_eq request.ip ip ≡ false
      → lookup ip (check_ip request.ip now guard).1.requests ≡ lookup ip guard.requests
  unfolding check_ip counted
  check_ip-other request now guard d =
      let first =
        lookup-insert request.ip ip (record { count = 1; window_start = now }) guard.requests in
      elim (Option-cases (lookup request.ip guard.requests)) [
        | inl absent ↦ ground (arith, first)
        | inr (e, found) ↦ ground (
          arith,
          first,
          lookup-insert request.ip ip (record e { count = e.count + 1 }) guard.requests,
        )
      ]

  hit_other :
      (request : Request) (v : Verdict) → text_eq request.ip ip ≡ false → hit ip request v ≡ 0
  hit_other request admitted d = ground arith
  hit_other request (refused r) d = refl

  -- A request of the address takes one of what is left if it is admitted.
  check_ip-left :
      (request : Request) (now : ℕ) (guard : RateLimitGuard)
      → t ≤ now
      → now ≤ t + window_ms
      → IsRecent (lookup ip guard.requests)
      → IsRecent (lookup ip (check_ip request.ip now guard).1.requests)
        × (hit ip request (check_ip request.ip now guard).0
              + left (lookup ip (check_ip request.ip now guard).1.requests)
            ≤ left (lookup ip guard.requests))
  unfolding check_ip counted
  check_ip-left request now guard l k h = elim (Bool-cases (text_eq request.ip ip)) [
    | inl same ↦
        let here : request.ip ≡ ip = (text_eq_iff request.ip ip).0 same in
        elim (Option-cases (lookup ip guard.requests)) [
          | inl absent ↦
              rw (here, absent, check_ip)
                (ground (
                  arith,
                  lookup-insert ip ip (record { count = 1; window_start = now }) guard.requests,
                  text_eq_refl ip,
                ))
          | inr (e, found) ↦
              let raised : RateLimitEntry = record e { count = e.count + 1 } in
              let fresh : RateLimitEntry = record { count = 1; window_start = now } in
              let cases : (t ≤ e.window_start) ⊎ (e.window_start + window_ms < t) = rw found at h in
              rw (here, found, check_ip)
                (elim cases [
                  | inl recent ↦
                      ground
                        (arith, recent, lookup-insert ip ip raised guard.requests, text_eq_refl ip)
                  | inr over ↦
                      ground
                        (arith, over, lookup-insert ip ip fresh guard.requests, text_eq_refl ip)
                ])
        ]
    | inr other ↦
        let same = check_ip-other request now guard other in
        (
          rw same h,
          rw (same, hit_other request (check_ip request.ip now guard).0 other) (omega arith),
        )
  ]

  check_ip-HasUniqueKeys :
      (other : Text) (now : ℕ) (guard : RateLimitGuard)
      → HasUniqueKeys guard.requests
      → HasUniqueKeys (check_ip other now guard).1.requests
  unfolding check_ip counted
  check_ip-HasUniqueKeys other now guard u =
      let fresh : RateLimitEntry = record { count = 1; window_start = now } in
      elim (Option-cases (lookup other guard.requests)) [
        | inl absent ↦ rw (absent, check_ip) (insert-HasUniqueKeys other fresh guard.requests u)
        | inr (e, found) ↦
            let raised : RateLimitEntry = record e { count = e.count + 1 } in
            rw (found, check_ip)
              (ground (
                arith,
                insert-HasUniqueKeys other fresh guard.requests u,
                insert-HasUniqueKeys other raised guard.requests u,
              ))
      ]

  can_activate-left :
      (request : Request) (now : ℕ) (guard : RateLimitGuard)
      → t ≤ now
      → now ≤ t + window_ms
      → HasUniqueKeys guard.requests
      → IsRecent (lookup ip guard.requests)
      → IsRecent (lookup ip (can_activate request now guard).1.requests)
        × (hit ip request (can_activate request now guard).0
              + left (lookup ip (can_activate request now guard).1.requests)
            ≤ left (lookup ip guard.requests))
  unfolding can_activate
  can_activate-left request now guard l k u h =
      let (tidied, same) = tidy-left now guard l k u h in
      let (recent, fewer) = check_ip-left request now (tidy now guard) l k tidied in
      let checked = check_ip request.ip now (tidy now guard) in
      (
        rw (after_ip-requests request now checked) recent,
        rw (after_ip-requests request now checked, ← same)
            (omega (arith, fewer, after_ip-hit request now checked)),
      )

  can_activate-HasUniqueKeys :
      (request : Request) (now : ℕ) (guard : RateLimitGuard)
      → HasUniqueKeys guard.requests
      → HasUniqueKeys (can_activate request now guard).1.requests
  unfolding can_activate
  can_activate-HasUniqueKeys request now guard u =
      rw (after_ip-requests request now (check_ip request.ip now (tidy now guard)))
        (check_ip-HasUniqueKeys request.ip now (tidy now guard) (tidy-HasUniqueKeys now guard u))

  admitted_count-left :
      (events : List (Request × ℕ)) (guard : RateLimitGuard)
      → All (λ e. (t ≤ e.1) × (e.1 ≤ t + window_ms)) events
      → HasUniqueKeys guard.requests
      → IsRecent (lookup ip guard.requests)
      → admitted_count ip events guard ≤ left (lookup ip guard.requests)
  unfolding admitted_count
  admitted_count-left [] guard times u h = omega arith
  admitted_count-left ((request, now) ∷ events) guard times u h =
      let (recent, fewer) = can_activate-left request now guard times.0.0 times.0.1 u h in
      omega (
        arith,
        fewer,
        admitted_count-left events (can_activate request now guard).1 times.1
            (can_activate-HasUniqueKeys request now guard u) recent,
      )

-- Of the requests that come within a window of a minute from `t` on, from any addresses and for any paths, an
-- address gets at most 100 through, if it has no entry, or an entry whose window is over at `t`, which a
-- clean-up may not have taken yet; no address has two entries.
pub admitted_count_le :
    (ip : Text) (t : ℕ) (events : List (Request × ℕ)) (guard : RateLimitGuard)
    → HasUniqueKeys guard.requests
    → ((e : RateLimitEntry) → lookup ip guard.requests ≡ some e → e.window_start + window_ms < t)
    → All (λ e. (t ≤ e.1) × (e.1 ≤ t + window_ms)) events
    → admitted_count ip events guard ≤ max_requests
admitted_count_le ip t events guard u over times = elim (Option-cases (lookup ip guard.requests)) [
  | inl absent ↦ rw absent at (admitted_count-left ip t events guard times u (rw absent tt))
  | inr (e, found) ↦
      let lapsed = over e found in
      let few = admitted_count-left ip t events guard times u (rw found (inr lapsed)) in
      ground (arith, lapsed, rw found at few)
]
