-- ===== src/Buffers/Rules.antt =====
-- What an action reads and what it writes, as predicates with one rule for each way to build
-- an action.
use pgwire.Base.{
  ℕ, ◌+◌, ◌*◌, ◌/◌, ◌%◌, ◌^◌, ◌<◌, ◌≡◌, refl, sym, ap, ◌∙◌, Option, some, [], ◌∷◌, ◌++◌, append-nil,
  append_assoc, Bytes, length, be16, be32, arith,
}
use pgwire.Errors.{PgWireError}
use pgwire.Buffers.{
  BytesCrate, ok, err, panic, Action, ◌>>=◌, ◌>>◌, pure, reading, writing, put_u8, put_u16, put_i16,
  put_u32, put_i32, put_slice, get_u8, get_u16, get_i16, get_u32, get_i32, split_to, copy_to_slice,
  advance,
}

-- `m` takes `x` from the front of the buffer, whatever follows, and returns `a`.
pub record Reads {A : Type 0} (m : Action A) (x : Bytes) (a : A) : Type 0 where
  pub at : (rest : Bytes) → m (x ++ rest) ≡ ok a rest

-- `m` appends `x` to the buffer.
pub record Writes (m : Action (Unit {0})) (x : Bytes) : Type 0 where
  pub at : (b : Bytes) → m b ≡ ok tt (b ++ x)

-- One step of a block.
module _ {A B : Type 0} (m : Action A) (f : A → Action B) (b : Bytes) where
  pub bind-ok : (a : A) (b' : Bytes) → m b ≡ ok a b' → (m >>= f) b ≡ f a b'
  unfolding ◌>>=◌
  bind-ok a b' h = rw (h, ◌>>=◌)

  pub bind-err : (e : PgWireError) (b' : Bytes) → m b ≡ err e b' → (m >>= f) b ≡ err e b'
  unfolding ◌>>=◌
  bind-err e b' h = rw (h, ◌>>=◌)

  pub bind-panic : m b ≡ panic → (m >>= f) b ≡ panic
  unfolding ◌>>=◌
  bind-panic h = rw (h, ◌>>=◌)

-- A block is run the same way after two actions that give the same reply.
pub bind-cong :
    {A B : Type 0} (m m' : Action A) (f : A → Action B) (b b' : Bytes)
    → m b ≡ m' b'
    → (m >>= f) b ≡ (m' >>= f) b'
unfolding ◌>>=◌
bind-cong m m' f b b' h = rw (h, ◌>>=◌)

module _ {A : Type 0} where
  pub Reads-pure : (a : A) → Reads (pure a) [] a
  unfolding pure
  Reads-pure a = record { at = λ rest. refl }

  pub Reads-reading :
      (f : Bytes → Option (A × Bytes)) (x : Bytes) (a : A)
      → ((rest : Bytes) → f (x ++ rest) ≡ some (a, rest))
      → Reads (reading f) x a
  unfolding reading
  Reads-reading f x a h = record { at = λ rest. rw (h rest, reading) }

pub Reads-bind :
    {A B : Type 0} (m : Action A) (f : A → Action B) {x y : Bytes} (a : A) (r : B)
    → Reads m x a
    → Reads (f a) y r
    → Reads (m >>= f) (x ++ y) r
Reads-bind m f {x = x} {y = y} a r hm hf = record {
  at = λ rest.
      ap (m >>= f) (append_assoc x y rest)
      ∙ bind-ok m f (x ++ (y ++ rest)) a (y ++ rest) (hm.at (y ++ rest))
      ∙ hf.at rest;
}

pub Reads-then :
    {A B : Type 0} (m : Action A) (k : Action B) {x y : Bytes} (a : A) (r : B)
    → Reads m x a
    → Reads k y r
    → Reads (m >> k) (x ++ y) r
unfolding ◌>>◌
Reads-then m k a r hm hk = Reads-bind m (λ _. k) a r hm hk

-- A block that ends with the value of its last read.
pub Reads-last :
    {A B : Type 0} (m : Action A) (g : A → B) {x : Bytes} (a : A)
    → Reads m x a
    → Reads (m >>= λ r. pure (g r)) x (g a)
unfolding pure
Reads-last m g {x = x} a hm = record {
  at = λ rest. bind-ok m (λ r. pure (g r)) (x ++ rest) a rest (hm.at rest);
}

-- The same where the value is known up to an equation.
pub Reads-last_eq :
    {A B : Type 0} (m : Action A) (g : A → B) {x : Bytes} (a : A) (r : B)
    → g a ≡ r
    → Reads m x a
    → Reads (m >>= λ z. pure (g z)) x r
Reads-last_eq m g a r e hm = rw (← e) (Reads-last m g a hm)

pub Writes-pure : Writes (pure tt) []
unfolding pure
Writes-pure = record { at = λ b. ap (ok tt) (sym (append-nil b)) }

pub Writes-then :
    (m k : Action (Unit {0})) {x y : Bytes} → Writes m x → Writes k y → Writes (m >> k) (x ++ y)
unfolding ◌>>◌
Writes-then m k {x = x} {y = y} hm hk = record {
  at = λ b.
      bind-ok m (λ _. k) b tt (b ++ x) (hm.at b) ∙ hk.at (b ++ x) ∙ ap (ok tt) (append_assoc b x y);
}

pub be16_word : (n : ℕ) → n < 2 ^ 16 → n / 2 ^ 8 % 2 ^ 8 * 2 ^ 8 + n % 2 ^ 8 ≡ n
be16_word n h = omega arith

pub be32_word :
    (n : ℕ)
    → n < 2 ^ 32
    → n / 2 ^ 24 % 2 ^ 8 * 2 ^ 24
        + n / 2 ^ 16 % 2 ^ 8 * 2 ^ 16
        + n / 2 ^ 8 % 2 ^ 8 * 2 ^ 8
        + n % 2 ^ 8
      ≡ n
be32_word n h = omega arith

module _ ⦃c : BytesCrate⦄ where
  pub Reads-get_u8 : (n : ℕ) → Reads get_u8 (n ∷ []) n
  Reads-get_u8 n = Reads-reading _ _ n (λ rest. c.get_u8_eq n rest)

  pub Reads-get_u16 : (n : ℕ) → n < 2 ^ 16 → Reads get_u16 (be16 n) n
  Reads-get_u16 n h =
      Reads-reading _ _ n
        (λ rest. c.get_u16_eq _ _ rest ∙ ap (λ (w : ℕ). some (w, rest)) (be16_word n h))

  pub Reads-get_i16 : (n : ℕ) → n < 2 ^ 16 → Reads get_i16 (be16 n) n
  Reads-get_i16 n h =
      Reads-reading _ _ n
        (λ rest. c.get_i16_eq _ _ rest ∙ ap (λ (w : ℕ). some (w, rest)) (be16_word n h))

  pub Reads-get_u32 : (n : ℕ) → n < 2 ^ 32 → Reads get_u32 (be32 n) n
  Reads-get_u32 n h =
      Reads-reading _ _ n
        (λ rest. c.get_u32_eq _ _ _ _ rest ∙ ap (λ (w : ℕ). some (w, rest)) (be32_word n h))

  pub Reads-get_i32 : (n : ℕ) → n < 2 ^ 32 → Reads get_i32 (be32 n) n
  Reads-get_i32 n h =
      Reads-reading _ _ n
        (λ rest. c.get_i32_eq _ _ _ _ rest ∙ ap (λ (w : ℕ). some (w, rest)) (be32_word n h))

  pub Reads-split_to : (x : Bytes) (n : ℕ) → n ≡ length x → Reads (split_to n) x x
  Reads-split_to x n e = Reads-reading _ x x (λ rest. rw e (c.split_to_eq x rest))

  pub Reads-copy_to_slice : (x : Bytes) (n : ℕ) → n ≡ length x → Reads (copy_to_slice n) x x
  Reads-copy_to_slice x n e = Reads-reading _ x x (λ rest. rw e (c.copy_to_slice_eq x rest))

  pub Reads-advance : (x : Bytes) (n : ℕ) → n ≡ length x → Reads (advance n) x tt
  Reads-advance x n e = Reads-reading _ x tt (λ rest. rw e (rw (c.advance_eq x rest)))

  pub Writes-put_u8 : (n : ℕ) → Writes (put_u8 n) (n ∷ [])
  unfolding writing
  Writes-put_u8 n = record { at = λ b. ap (ok tt) (c.put_u8_eq b n) }

  pub Writes-put_u16 : (n : ℕ) → Writes (put_u16 n) (be16 n)
  unfolding writing
  Writes-put_u16 n = record { at = λ b. ap (ok tt) (c.put_u16_eq b n) }

  pub Writes-put_i16 : (n : ℕ) → Writes (put_i16 n) (be16 n)
  unfolding writing
  Writes-put_i16 n = record { at = λ b. ap (ok tt) (c.put_i16_eq b n) }

  pub Writes-put_u32 : (n : ℕ) → Writes (put_u32 n) (be32 n)
  unfolding writing
  Writes-put_u32 n = record { at = λ b. ap (ok tt) (c.put_u32_eq b n) }

  pub Writes-put_i32 : (n : ℕ) → Writes (put_i32 n) (be32 n)
  unfolding writing
  Writes-put_i32 n = record { at = λ b. ap (ok tt) (c.put_i32_eq b n) }

  pub Writes-put_slice : (s : Bytes) → Writes (put_slice s) s
  unfolding writing
  Writes-put_slice s = record { at = λ b. ap (ok tt) (c.put_slice_eq b s) }

  -- Reads past the end.
  pub split_to-short : (n : ℕ) (b : Bytes) → length b < n → split_to n b ≡ panic
  unfolding reading
  split_to-short n b h = rw (c.split_to_short b n h, reading)

  pub get_u8-short : get_u8 [] ≡ panic
  unfolding reading
  get_u8-short = rw (c.get_u8_short, reading)

  pub get_i16-short : (b : Bytes) → length b < 2 → get_i16 b ≡ panic
  unfolding reading
  get_i16-short b h = rw (c.get_i16_short b h, reading)

  pub get_u32-short : (b : Bytes) → length b < 4 → get_u32 b ≡ panic
  unfolding reading
  get_u32-short b h = rw (c.get_u32_short b h, reading)
