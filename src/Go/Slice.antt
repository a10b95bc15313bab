-- ===== src/Go/Slice.antt =====
-- Writes into a byte slice: an assignment to an element, the fixed-width writers of
-- encoding/binary, and the built-in `copy`. Each panics where Go does.
use goxz.Base.{
  ℕ, suc, Bool, ◌+◌, ◌-◌, ◌/◌, ◌%◌, ◌≤◌, ◌≡◌, refl, List, [], ◌∷◌, ◌++◌, length, take, drop, arith,
  leb, if◌then◌else◌, append_assoc, take-append, drop-append, length-append, take_all, min,
  drop-drop, ap,
}
use goxz.Go.Outcome.{Res, ok, fail, bounds, ◌>>=◌}

-- out[i], out[i+1], … = bs
unfoldable pub write_at {ℓ} : {A : Type ℓ} → List A → ℕ → List A → Res (List A)
write_at out i bs =
    if leb (i + length bs) (length out)
    then ok (take i out ++ (bs ++ drop (i + length bs) out))
    else fail bounds

-- copy(out[i:], bs), with the count that it returns
unfoldable pub copy_at {ℓ} : {A : Type ℓ} → List A → ℕ → List A → Res (List A × ℕ)
copy_at out i bs =
    let n = min (length out - i) (length bs) in
    if leb i (length out)
    then ok (take i out ++ (take n bs ++ drop (i + n) out), n)
    else fail bounds

-- binary.BigEndian.PutUint16
abbrev pub be16 : ℕ → List ℕ
be16 v = (v / 256 % 256) ∷ (v % 256) ∷ []

-- binary.LittleEndian.PutUint32 and PutUint64
abbrev pub little_endian : ℕ → ℕ → List ℕ
little_endian ℕ.zero v = []
little_endian (suc n) v = (v % 256) ∷ little_endian n (v / 256)

length-little_endian : (n v : ℕ) → length (little_endian n v) ≡ n
length-little_endian ℕ.zero v = refl
length-little_endian (suc n) v = omega (arith, length-little_endian n (v / 256))

-- A write at the seam of what is written and what is not yet.
pub write_at-append {ℓ} :
    {A : Type ℓ} (w r bs : List A) (i : ℕ)
    → i ≡ length w
    → length bs ≤ length r
    → write_at (w ++ r) i bs ≡ ok ((w ++ bs) ++ drop (length bs) r)
unfolding write_at
write_at-append w r bs i h k = rw (
  fits,
  take-append w r i h,
  drop-append w r (i + length bs) (length bs) (omega arith),
  append_assoc w bs (drop (length bs) r),
)
  where
    fits : leb (i + length bs) (length (w ++ r)) ≡ Bool.true
    fits = ground (arith, length-append w r)

pub copy_at-append {ℓ} :
    {A : Type ℓ} (w r bs : List A) (i : ℕ)
    → i ≡ length w
    → length bs ≤ length r
    → copy_at (w ++ r) i bs ≡ ok ((w ++ bs) ++ drop (length bs) r, length bs)
unfolding copy_at
copy_at-append w r bs i h k = rw (
  fits,
  count,
  take-append w r i h,
  take_all (length bs) bs (omega arith),
  drop-append w r (i + length bs) (length bs) (omega arith),
  append_assoc w bs (drop (length bs) r),
)
  where
    fits : leb i (length (w ++ r)) ≡ Bool.true
    fits = ground (arith, length-append w r)

    count : min (length (w ++ r) - i) (length bs) ≡ length bs
    count = omega (arith, length-append w r)

-- Four writes at the seam, as one.
pub writes_join {ℓ} :
    {A : Type ℓ} (w a b c d r : List A) (k : ℕ)
    → k ≡ length a + length b + length c + length d
    → ((((w ++ a) ++ b) ++ c) ++ d)
        ++ drop (length d) (drop (length c) (drop (length b) (drop (length a) r)))
      ≡ (w ++ (a ++ (b ++ (c ++ d)))) ++ drop k r
writes_join w a b c d r k h =
    rw
      (
        drop-drop r (length b) (length a) (length b + length a) refl,
        drop-drop r (length c) (length b + length a) (length c + (length b + length a)) refl,
        drop-drop r (length d) (length c + (length b + length a)) k (omega arith),
      )
      (ap (λ l. l ++ drop k r) (simp append_assoc))

-- out[i].field = …, as a change of the element.
unfoldable pub update_at {ℓ} : {A : Type ℓ} → List A → ℕ → (A → A) → Res (List A)
update_at [] i f = fail bounds
update_at (x ∷ xs) ℕ.zero f = ok (f x ∷ xs)
update_at (x ∷ xs) (suc i) f = update_at xs i f >>= λ ys. ok (x ∷ ys)
