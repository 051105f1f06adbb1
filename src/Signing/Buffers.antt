-- ===== src/Signing/Buffers.antt =====
-- The key material in memory against the table of sessions: lemmas on the list of buffers.
use guardian_wallet.Prelude.{
  ℕ, ◌<◌, ◌≤◌, ◌≡◌, refl, ◌≢◌, none, some, List, [], ◌∷◌, ◌++◌, Text, text_eq, text_eq_iff, All,
  All-append, Bool-cases, length, inl, inr, arith,
}
use guardian_wallet.Prelude.Dict.{Dict, HasUniqueKeys, lookup, insert, delete}
use guardian_wallet.Signing.Types.{SessionState}
use guardian_wallet.Signing.Sessions.{wipe}

-- The buffers that the sessions hold, in the order of the table.
abbrev pub buffers : Dict SessionState → List ℕ
buffers [] = []
buffers ((id, state) ∷ m) = state.key_buffer ∷ buffers m

abbrev pub IsDistinct : List ℕ → Type 0
IsDistinct [] = Unit
IsDistinct (n ∷ ns) = All (λ m. m ≢ n) ns × IsDistinct ns

pub wipe_absent : (n : ℕ) (ns : List ℕ) → All (λ m. m ≢ n) ns → wipe n ns ≡ ns
unfolding wipe
wipe_absent n [] h = refl
wipe_absent n (m ∷ ns) h = ground (arith, wipe_absent n ns h.1)

pub wipe-append_last : (n : ℕ) (ns : List ℕ) → All (λ m. m ≢ n) ns → wipe n (ns ++ n ∷ []) ≡ ns
unfolding wipe
wipe-append_last n [] h = ground arith
wipe-append_last n (m ∷ ns) h = ground (arith, wipe-append_last n ns h.1)

pub delete_absent : (k : Text) (m : Dict SessionState) → lookup k m ≡ none → delete k m ≡ m
unfolding lookup delete
delete_absent k [] h = refl
delete_absent k ((j, w) ∷ m) h = ground (arith, delete_absent k m)

module _ (P : ℕ → Type 0) where
  -- What holds of all buffers holds of that of a session.
  lookup-All :
      (k : Text) (m : Dict SessionState) (state : SessionState)
      → All P (buffers m)
      → lookup k m ≡ some state
      → P state.key_buffer
  unfolding lookup
  lookup-All k [] state h e = cc
  lookup-All k ((j, w) ∷ m) state h e = elim (Bool-cases (text_eq j k)) [
    | inl same ↦ let found : w ≡ state = ground arith in rw (← found) h.0
    | inr other ↦ lookup-All k m state h.1 (ground arith)
  ]

  pub delete-All :
      (k : Text) (m : Dict SessionState) → All P (buffers m) → All P (buffers (delete k m))
  unfolding delete
  delete-All k [] h = tt
  delete-All k ((j, w) ∷ m) h = elim (Bool-cases (text_eq j k)) [
    | inl same ↦ rw (same, delete) (delete-All k m h.1)
    | inr other ↦ rw (other, delete) (h.0, delete-All k m h.1)
  ]

pub delete-IsDistinct :
    (k : Text) (m : Dict SessionState) → IsDistinct (buffers m) → IsDistinct (buffers (delete k m))
unfolding delete
delete-IsDistinct k [] h = tt
delete-IsDistinct k ((j, w) ∷ m) h = elim (Bool-cases (text_eq j k)) [
  | inl same ↦ rw (same, delete) (delete-IsDistinct k m h.1)
  | inr other ↦
      rw (other, delete) (delete-All (λ n. n ≢ w.key_buffer) k m h.0, delete-IsDistinct k m h.1)
]

-- Wiping the buffer of a session and deleting the session do the same to the two lists.
pub wipe-buffers :
    (k : Text) (m : Dict SessionState) (state : SessionState)
    → IsDistinct (buffers m)
    → lookup k m ≡ some state
    → HasUniqueKeys m
    → wipe state.key_buffer (buffers m) ≡ buffers (delete k m)
unfolding wipe lookup delete
wipe-buffers k [] state d e u = cc
wipe-buffers k ((j, w) ∷ m) state d e u = elim (Bool-cases (text_eq j k)) [
  | inl same ↦
      ground (arith, text_eq_iff j k, wipe_absent w.key_buffer (buffers m) d.0, delete_absent k m)
  | inr other ↦
      let found : lookup k m ≡ some state = ground arith in
      ground (
        arith,
        wipe-buffers k m state d.1 found u.1,
        lookup-All (λ n. n ≢ w.key_buffer) k m state d.0 found,
      )
]

-- A fresh key goes to the end of the table.
pub insert_absent :
    (k : Text) (v : SessionState) (m : Dict SessionState)
    → lookup k m ≡ none
    → insert k v m ≡ m ++ (k, v) ∷ []
unfolding lookup insert
insert_absent k v [] h = refl
insert_absent k v ((j, w) ∷ m) h = ground (arith, insert_absent k v m)

pub buffers-append :
    (m : Dict SessionState) (k : Text) (v : SessionState)
    → buffers (m ++ (k, v) ∷ []) ≡ buffers m ++ v.key_buffer ∷ []
buffers-append [] k v = refl
buffers-append ((j, w) ∷ m) k v = rw (buffers-append m k v)

pub IsDistinct-append :
    (ns : List ℕ) (n : ℕ) → IsDistinct ns → All (λ m. m < n) ns → IsDistinct (ns ++ n ∷ [])
IsDistinct-append [] n d h = (tt, tt)
IsDistinct-append (m ∷ ns) n d h =
    (All-append (λ k. k ≢ m) ns (n ∷ []) d.0 (omega arith, tt), IsDistinct-append ns n d.1 h.1)

pub All-lt-suc : (ns : List ℕ) {n k : ℕ} → n ≤ k → All (λ m. m < n) ns → All (λ m. m < k) ns
All-lt-suc [] l h = tt
All-lt-suc (m ∷ ns) l h = (omega arith, All-lt-suc ns l h.1)

pub All-lt-ne : (ns : List ℕ) (n : ℕ) → All (λ m. m < n) ns → All (λ m. m ≢ n) ns
All-lt-ne [] n h = tt
All-lt-ne (m ∷ ns) n h = (omega arith, All-lt-ne ns n h.1)

-- A known key keeps its place, and with the same buffer the list of buffers is the same.
pub buffers-insert_known :
    (k : Text) (v : SessionState) (m : Dict SessionState) (state : SessionState)
    → lookup k m ≡ some state
    → v.key_buffer ≡ state.key_buffer
    → buffers (insert k v m) ≡ buffers m
unfolding lookup insert
buffers-insert_known k v [] state h e = cc
buffers-insert_known k v ((j, w) ∷ m) state h e = ground (arith, buffers-insert_known k v m state)

pub length-insert_known :
    (k : Text) (v : SessionState) (m : Dict SessionState) (state : SessionState)
    → lookup k m ≡ some state
    → length (insert k v m) ≡ length m
unfolding lookup insert
length-insert_known k v [] state h = cc
length-insert_known k v ((j, w) ∷ m) state h = ground (arith, length-insert_known k v m state)
