-- ===== src/Database/Conformance/Times.antt =====
-- The keys that `Build` (key/key.go) makes of test/*, and the range of times of
-- `StorageKeysRangeTest` (storageTest.go).
use ooo.Base.{
  ℕ, ◌≤◌, Bool, true, false, ◌&&◌, [], ◌∷◌, ◌++◌, none, Text, text_eq, codes, is_empty, has, split,
  last_part, ◌≡◌, ◌≢◌, refl, ◌∙◌, ap, arith, pos, if◌then◌else◌, Bool-cases, inl, inr,
}
use ooo.Key.{glob_regex, is_word, ends_in_word, is_valid, match, last_index, build, decode}
use ooo.Key.Path.{slash}
use ooo.Key.Hex.{max_int64}
use ooo.Key.Stamp.{
  stamp, stamp-IsDigit, stamp-has, stamp-ne-nil, build-prefix, build_lem, decode-format_int,
  last_index-prefix,
}
use ooo.Key.Built.{build-is_valid}
use ooo.Memory.Table.{Table, load, store, keys_if}
use ooo.Memory.Effects.{stores}
use ooo.Memory.Reads.{keys_range, in_time, key_time}

-- The key of a time.
abbrev pub built_key : ℕ → Text
built_key n = build (pos n) (codes "test/*")

pub built_key-stamp : (n : ℕ) → built_key n ≡ codes "test/" ++ stamp n
built_key-stamp n = build-prefix (codes "test") n refl

split-part : (c : ℕ) (s : Text) → has c s ≡ false → split c s ≡ s ∷ []
split-part c [] h = refl
split-part c (a ∷ s) h = ground (arith, split-part c s)

built_key-key_time : (n : ℕ) → n ≤ max_int64 → key_time (built_key n) ≡ pos n
unfolding key_time
built_key-key_time n h =
    ap (λ k. decode (last_part (split slash k))) (built_key-stamp n)
    ∙ rw (split-part slash (stamp n) (stamp-has (stamp n) (stamp-IsDigit n)).1)
        (decode-format_int n h)

pub built_key-last_index : (n : ℕ) → last_index (built_key n) ≡ stamp n
built_key-last_index n =
    ap last_index (built_key-stamp n)
    ∙ last_index-prefix (codes "test") (stamp n) (stamp-has (stamp n) (stamp-IsDigit n)).1

pub stamp-not_empty : (n : ℕ) → is_empty (stamp n) ≡ false
stamp-not_empty n = elim (Bool-cases (is_empty (stamp n))) [
  | inr e ↦ e
  | inl e ↦ absurd (stamp-ne-nil n (nil (stamp n) e))
]
  where
    nil : (s : Text) → is_empty s ≡ true → s ≡ []
    nil [] e = refl
    nil (c ∷ s) e = cc

pub built_key-stores :
    (n : ℕ) (body : Text) → is_empty body ≡ false → stores (built_key n) body ≡ true
built_key-stores n body h =
    let (v, s) =
      build-is_valid (codes "test") n refl
        (unfold is_valid glob_regex is_word ends_in_word in refl) in
    rw (v, s, h) refl

-- The keys of the range of the test.
abbrev pub in_range : ℕ → Text → Bool
in_range first k = match (codes "test/*") k && in_time (pos 0) (pos first) k

pub in_range-first : (n : ℕ) → n ≤ max_int64 → in_range n (built_key n) ≡ true
unfolding in_time
in_range-first n h =
    let (m, _) = build_lem (codes "test") n refl (omega arith) h in
    rw (m, built_key-key_time n h) (ground arith)

-- A key that was made later is the first one, or not in its range.
pub in_range-later :
    (first n : ℕ) → n ≤ max_int64 → first ≤ n → in_range first (built_key n) ≡ true → n ≡ first
unfolding in_time
in_range-later first n h le e = ground (arith, built_key-key_time n h)

pub keys_if-store :
    {V : Type 0} (p : Text → Bool) (k : Text) (v : V) (mem : Table V)
    → (load k mem ≢ none → keys_if p (store k v mem) ≡ keys_if p mem)
      × (p k ≡ false → keys_if p (store k v mem) ≡ keys_if p mem)
unfolding keys_if store load
keys_if-store p k v [] = (λ n. absurd (n refl), λ e. rw e)
keys_if-store p k v ((j, w) ∷ mem) = elim (Bool-cases (text_eq j k)) [
  | inl e ↦ (λ n. rw e, λ f. rw e)
  | inr e ↦
      let (a, b) = keys_if-store p k v mem in
      (
        λ n. rw e (ap (λ l. if p j then j ∷ l else l) (a (rw e at n))),
        λ f. rw e (ap (λ l. if p j then j ∷ l else l) (b f)),
      )
]

pub keys_range-first :
    (first : ℕ) (mem : Table Text)
    → keys_range (codes "test/*") (pos 0) (pos first) mem ≡ (keys_if (in_range first) mem, none)
unfolding keys_range
keys_range-first first mem = ground arith
