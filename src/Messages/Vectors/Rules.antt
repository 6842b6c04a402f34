-- ===== src/Messages/Vectors/Rules.antt =====
-- What the loops over counted sequences write and read.
use pgwire.Base.{
  ℕ, ◌+◌, ◌*◌, ◌%◌, ◌^◌, ◌<◌, ◌≡◌, refl, Option, none, some, List, [], ◌∷◌, ◌++◌, Bytes, All,
  length, length-append, sum_map, be16, be32, minus_one32, lt→leb, arith,
}
use pgwire.Buffers.{BytesCrate, Action, get_i16, get_i32}
use pgwire.Buffers.Rules.{
  Reads, Writes, Reads-bind, Reads-then, Reads-last, Reads-pure, Reads-get_i16, Reads-get_i32,
  Reads-split_to, Writes-then, Writes-pure, Writes-put_i16, Writes-put_i32, Writes-put_slice,
}
use pgwire.Messages.Vectors.{
  for_each, read_times, with_capacity, write_vec, read_vec, put_value, get_value,
}

-- The concatenated encodings of a list.
abbrev pub flat {ℓ} : {A : Type ℓ} → (A → Bytes) → List A → Bytes
flat enc [] = []
flat enc (x ∷ xs) = enc x ++ flat enc xs

pub length-flat {ℓ} :
    {A : Type ℓ} (enc : A → Bytes) (xs : List A)
    → length (flat enc xs) ≡ sum_map (λ x. length (enc x)) xs
length-flat enc [] = refl
length-flat enc (x ∷ xs) = omega (arith, length-append (enc x) (flat enc xs), length-flat enc xs)

-- Elements of one width.
pub sum_map-const {ℓ} :
    {A : Type ℓ} (f : A → ℕ) (k : ℕ) (xs : List A)
    → ((x : A) → f x ≡ k)
    → sum_map f xs ≡ k * length xs
sum_map-const f k [] h = omega arith
sum_map-const f k (x ∷ xs) h = grind (arith, h x, sum_map-const f k xs h)

pub sum_map-eq {ℓ} :
    {A : Type ℓ} (f g : A → ℕ) (xs : List A) → ((x : A) → f x ≡ g x) → sum_map f xs ≡ sum_map g xs
sum_map-eq f g [] h = refl
sum_map-eq f g (x ∷ xs) h = omega (arith, h x, sum_map-eq f g xs h)

pub All-map :
    {A : Type 0} {P Q : A → Type 0} (xs : List A) → ((x : A) → P x → Q x) → All P xs → All Q xs
All-map [] f h = tt
All-map (x ∷ xs) f h = (f x h.0, All-map xs f h.1)

module _ {A : Type 0} where
  pub Writes-for_each :
      (f : A → Action (Unit {0})) (enc : A → Bytes) (xs : List A)
      → ((x : A) → Writes (f x) (enc x))
      → Writes (for_each f xs) (flat enc xs)
  unfolding for_each
  Writes-for_each f enc [] h = Writes-pure
  Writes-for_each f enc (x ∷ xs) h = Writes-then _ _ (h x) (Writes-for_each f enc xs h)

  pub Reads-read_times :
      (m : Action A) (enc : A → Bytes) (xs : List A)
      → All (λ x. Reads m (enc x) x) xs
      → Reads (read_times (length xs) m) (flat enc xs) xs
  unfolding read_times
  Reads-read_times m enc [] h = Reads-pure []
  Reads-read_times m enc (x ∷ xs) h =
      Reads-bind m _ x (x ∷ xs) h.0 (Reads-last _ (λ ys. x ∷ ys) xs (Reads-read_times m enc xs h.1))

-- The bytes of a counted sequence.
abbrev pub vec_bytes : {A : Type 0} → (A → Bytes) → List A → Bytes
vec_bytes enc xs = be16 (length xs % 2 ^ 16) ++ flat enc xs

pub length-vec_bytes :
    {A : Type 0} (enc : A → Bytes) (xs : List A)
    → length (vec_bytes enc xs) ≡ 2 + sum_map (λ x. length (enc x)) xs
length-vec_bytes enc xs = omega (arith, length-flat enc xs)

abbrev pub value_bytes : Option Bytes → Bytes
value_bytes none = be32 minus_one32
value_bytes (some v) = be32 (length v % 2 ^ 32) ++ v

-- A value whose length is a non-negative `i32`.
abbrev pub IsValue : Option Bytes → Type 0
IsValue none = Unit
IsValue (some v) = length v < 2 ^ 31

small16 : (n : ℕ) → n < 2 ^ 16 → n % 2 ^ 16 ≡ n
small16 n h = omega arith

small32 : (n : ℕ) → n < 2 ^ 32 → n % 2 ^ 32 ≡ n
small32 n h = omega arith

Reads-with_capacity : (n : ℕ) → n < 2 ^ 15 → Reads (with_capacity n) [] tt
unfolding with_capacity
Reads-with_capacity n h = rw (lt→leb (2 ^ 15) n h) (Reads-pure tt)

module _ ⦃c : BytesCrate⦄ {A : Type 0} where
  pub Writes-write_vec :
      (f : A → Action (Unit {0})) (enc : A → Bytes) (xs : List A)
      → ((x : A) → Writes (f x) (enc x))
      → Writes (write_vec f xs) (vec_bytes enc xs)
  unfolding write_vec
  Writes-write_vec f enc xs h = Writes-then _ _ (Writes-put_i16 _) (Writes-for_each f enc xs h)

  pub Reads-read_vec :
      (m : Action A) (enc : A → Bytes) (xs : List A)
      → length xs < 2 ^ 15
      → All (λ x. Reads m (enc x) x) xs
      → Reads (read_vec m) (vec_bytes enc xs) xs
  unfolding read_vec
  Reads-read_vec m enc xs h hs = rw (small16 (length xs) (omega arith)) (
      Reads-bind get_i16 _ (length xs) xs (Reads-get_i16 (length xs) (omega arith))
        (Reads-then _ _ tt xs (Reads-with_capacity (length xs) h) (Reads-read_times m enc xs hs)))

module _ ⦃c : BytesCrate⦄ where
  pub Writes-put_value : (o : Option Bytes) → Writes (put_value o) (value_bytes o)
  unfolding put_value
  Writes-put_value none = Writes-put_i32 _
  Writes-put_value (some v) = Writes-then _ _ (Writes-put_i32 _) (Writes-put_slice v)

  pub Reads-get_value : (o : Option Bytes) → IsValue o → Reads get_value (value_bytes o) o
  unfolding get_value
  Reads-get_value none h =
      Reads-bind get_i32 _ {y = []} minus_one32 none (Reads-get_i32 minus_one32 (omega arith))
        (Reads-pure none)
  Reads-get_value (some v) h = rw (small32 (length v) (omega arith)) (
      Reads-bind get_i32 _ (length v) (some v) (Reads-get_i32 (length v) (omega arith)) (
        rw (lt→leb (2 ^ 31) (length v) h) (Reads-last _ some v (Reads-split_to v (length v) refl))))
