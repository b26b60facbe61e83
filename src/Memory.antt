-- ===== src/Memory.antt =====
-- The address space that the raw pointers of src/util.rs and src/buffer.rs point into: a byte at
-- each address. `load` reads a list of addresses, `store` writes them one after the other.
use ovfs.Prelude.{ℕ, zero, suc, ◌+◌, ◌-◌, ◌≤◌, ◌≡◌, refl, ◌∙◌, ap, min, arith}
use ovfs.Prelude.{List, [], ◌∷◌, ◌++◌, map, ◌==◌, if◌then◌else◌}
use ovfs.Prelude.{length, take, drop}

abbrev pub Memory : Type 0
Memory = ℕ → ℕ

-- The addresses from `a` on.
unfoldable pub span : ℕ → ℕ → List ℕ
span a zero = []
span a (suc n) = a ∷ span (suc a) n

abbrev pub load : Memory → List ℕ → List ℕ
load mem addrs = map mem addrs

abbrev pub poke : Memory → ℕ → ℕ → Memory
poke mem a b x = if x == a then b else mem x

unfoldable pub store : Memory → List ℕ → List ℕ → Memory
store mem [] bytes = mem
store mem (a ∷ addrs) [] = mem
store mem (a ∷ addrs) (b ∷ bytes) = store (poke mem a b) addrs bytes

-- `ptr::copy_nonoverlapping` from a buffer of the process into memory, and out of memory.
abbrev pub copy_to : Memory → ℕ → List ℕ → Memory
copy_to mem ptr bytes = store mem (span ptr (length bytes)) bytes

abbrev pub copy_from : Memory → ℕ → ℕ → List ℕ
copy_from mem ptr n = load mem (span ptr n)

pub length-span : (a n : ℕ) → length (span a n) ≡ n
unfolding span
length-span a zero = refl
length-span a (suc n) = ap suc (length-span (suc a) n)

span_at : (a b n m : ℕ) → a ≡ b → n ≡ m → span a n ≡ span b m
span_at a b n m p q = cc

pub take-span : (k a n : ℕ) → take k (span a n) ≡ span a (min k n)
unfolding span
take-span zero a n = span_at a a 0 _ refl (omega arith)
take-span (suc k) a zero = span_at a a 0 _ refl (omega arith)
take-span (suc k) a (suc n) =
    ap (λ l. a ∷ l) (take-span k (suc a) n) ∙ span_at a a (suc (min k n)) _ refl (omega arith)

pub drop-span : (k a n : ℕ) → drop k (span a n) ≡ span (a + k) (n - k)
unfolding span
drop-span zero a n = span_at _ _ _ _ (omega arith) (omega arith)
drop-span (suc k) a zero = span_at (a + suc k) (a + suc k) 0 _ refl (omega arith)
drop-span (suc k) a (suc n) = drop-span k (suc a) n ∙ span_at _ _ _ _ (omega arith) (omega arith)

pub length-load : (mem : Memory) (addrs : List ℕ) → length (load mem addrs) ≡ length addrs
length-load mem [] = refl
length-load mem (a ∷ addrs) = ap suc (length-load mem addrs)

-- Two writes one after the other are one write.
-- A write of no bytes.
pub store_short :
    (mem : Memory) (addrs bytes : List ℕ) → length bytes ≡ 0 → store mem addrs bytes ≡ mem
unfolding store
store_short mem [] bytes h = refl
store_short mem (a ∷ addrs) [] h = refl
store_short mem (a ∷ addrs) (b ∷ bytes) h = absurd (omega arith)

pub store-append :
    (mem : Memory) (xs ys bs cs : List ℕ)
    → length xs ≡ length bs
    → store mem (xs ++ ys) (bs ++ cs) ≡ store (store mem xs bs) ys cs
unfolding store
store-append mem [] ys [] cs h = refl
store-append mem [] ys (b ∷ bs) cs h = absurd (omega arith)
store-append mem (x ∷ xs) ys [] cs h = absurd (omega arith)
store-append mem (x ∷ xs) ys (b ∷ bs) cs h = store-append (poke mem x b) xs ys bs cs (omega arith)

-- A write ends with its bytes, or with its addresses.
pub store-take :
    (mem : Memory) (n : ℕ) (addrs bytes : List ℕ)
    → length bytes ≤ n
    → store mem (take n addrs) bytes ≡ store mem addrs bytes
unfolding store
store-take mem zero [] [] h = refl
store-take mem zero (a ∷ addrs) [] h = refl
store-take mem zero addrs (b ∷ bytes) h = absurd (omega arith)
store-take mem (suc n) [] bytes h = refl
store-take mem (suc n) (a ∷ addrs) [] h = refl
store-take mem (suc n) (a ∷ addrs) (b ∷ bytes) h =
    store-take (poke mem a b) n addrs bytes (omega arith)

-- A write goes on behind its first addresses with the bytes that are left.
pub store-addresses :
    (mem : Memory) (xs ys bytes : List ℕ)
    → store mem (xs ++ ys) bytes
      ≡ store (store mem xs (take (length xs) bytes)) ys (drop (length xs) bytes)
unfolding store
store-addresses mem [] ys bytes = refl
store-addresses mem (x ∷ xs) [] [] = refl
store-addresses mem (x ∷ xs) (y ∷ ys) [] = refl
store-addresses mem (x ∷ xs) ys (b ∷ bytes) = store-addresses (poke mem x b) xs ys bytes

-- A second write goes on where the first one ended.
pub store_again :
    (mem : Memory) (addrs bs cs : List ℕ)
    → length bs ≤ length addrs
    → store (store mem addrs bs) (drop (length bs) addrs) cs ≡ store mem addrs (bs ++ cs)
unfolding store
store_again mem [] [] cs h = refl
store_again mem (a ∷ addrs) [] cs h = refl
store_again mem [] (b ∷ bs) cs h = absurd (omega arith)
store_again mem (a ∷ addrs) (b ∷ bs) cs h = store_again (poke mem a b) addrs bs cs (omega arith)
