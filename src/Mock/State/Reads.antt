-- ===== src/Mock/State/Reads.antt =====
-- `read_memory`: what a read returns and when.
use zygisk_frida_packet_tcp.Base.{
  ℕ, ◌≤◌, ◌<◌, ◌≡◌, refl, sym, ap, ◌∙◌, ◌⊎◌, inl, inr, true, false, Option, none, some, List, [],
  ◌∷◌, ◌++◌, arith, ltb, Bool-cases, Option-cases, length, length-take, length-append, take,
  replicate, ℤ, pos, negsuc, suc, zero,
}
use mathlib.Core.List.{Memᴰ}
use zygisk_frida_packet_tcp.Protocol.Errors.{
  ok, Raises, e_bad_args, e_read_failed, e_permission_denied,
}
use zygisk_frida_packet_tcp.Protocol.Frame.{Bytes}
use zygisk_frida_packet_tcp.Mock.State.{
  MockModule, MockRuntimeState, contains, first_containing, module_for_address, is_readable,
  bytes_at, padded, read_in, read_memory, not_positive, max_read,
}

length-replicate : (n : ℕ) (a : ℕ) → length (replicate n a) ≡ n
length-replicate zero a = refl
length-replicate (suc n) a = ap suc (length-replicate n a)

pub length-padded : (found : Option Bytes) (n : ℕ) → length (padded found n) ≡ n
unfolding padded
length-padded none n = length-replicate n 0
length-padded (some chunk) n = omega (
  arith,
  length-take n (chunk ++ replicate n 0),
  length-append chunk (replicate n 0),
  length-replicate n 0,
)

take-replicate : (k n : ℕ) → k ≤ n → take {A = ℕ} k (replicate n 0) ≡ replicate k 0
take-replicate zero n h = refl
take-replicate (suc k) zero h = absurd (omega arith)
take-replicate (suc k) (suc n) h = ap (◌∷◌ 0) (take-replicate k n (omega arith))

take-take : (k n : ℕ) (xs : Bytes) → k ≤ n → take k (take n xs) ≡ take k xs
take-take zero n xs h = refl
take-take (suc k) zero xs h = absurd (omega arith)
take-take (suc k) (suc n) [] h = refl
take-take (suc k) (suc n) (x ∷ xs) h = ap (◌∷◌ x) (take-take k n xs (omega arith))

take-append_zeros :
    (k m m' : ℕ) (chunk : Bytes)
    → k ≤ m
    → k ≤ m'
    → take k (chunk ++ replicate m 0) ≡ take k (chunk ++ replicate m' 0)
take-append_zeros k m m' [] h h' = take-replicate k m h ∙ sym (take-replicate k m' h')
take-append_zeros zero m m' (x ∷ chunk) h h' = refl
take-append_zeros (suc k) m m' (x ∷ chunk) h h' =
    ap (◌∷◌ x) (take-append_zeros k m m' chunk (omega arith) (omega arith))

padded-take : (found : Option Bytes) (k n : ℕ) → k ≤ n → padded found k ≡ take k (padded found n)
unfolding padded
padded-take none k n h = sym (take-replicate k n h)
padded-take (some chunk) k n h =
    take-append_zeros k k n chunk (omega arith) h ∙ sym (take-take k n (chunk ++ replicate n 0) h)

-- The module that is found contains the range and is one of the modules.
first_containing-contains :
    (ms : List MockModule) (address : ℤ) (n : ℕ) (m : MockModule)
    → first_containing ms address n ≡ some m
    → (contains m address n ≡ true) × Memᴰ m ms
unfolding first_containing
first_containing-contains [] address n m h = absurd (cc)
first_containing-contains (x ∷ ms) address n m h = elim (Bool-cases (contains x address n)) [
  | inl inside ↦
      let x_m : x ≡ m = ground (arith, inside, h) in (rw (← x_m) inside, Memᴰ.head (sym x_m))
  | inr outside ↦
      let (inside, mem) = first_containing-contains ms address n m (ground (arith, outside, h)) in
      (inside, Memᴰ.tail mem)
]

-- What a read of a legal length can come to: the bytes at the address, padded with zeros, if the
-- range lies in a module that can be read, and an error if the module cannot be read or there is
-- none.
abbrev pub LegalRead : MockRuntimeState → ℤ → ℕ → Type 0
LegalRead st address n =
    ((m : MockModule) × (module_for_address st address n ≡ some m)
      × (is_readable m.permissions ≡ true)
      × (read_memory st address (pos n) ≡ ok (padded (bytes_at st.memory address) n)))
    ⊎ ((m : MockModule) × (module_for_address st address n ≡ some m)
        × (is_readable m.permissions ≡ false)
        × Raises (read_memory st address (pos n)) e_permission_denied)
    ⊎ ((module_for_address st address n ≡ none)
        × Raises (read_memory st address (pos n)) e_read_failed)

legal_read :
    (st : MockRuntimeState) (address : ℤ) (n : ℕ) → 0 < n → n ≤ max_read → LegalRead st address n
unfolding read_memory read_in
legal_read st address n h h' = elim (Option-cases (module_for_address st address n)) [
  | inl unmapped ↦ inr (inr (unmapped, ground (arith, unmapped)))
  | inr (m, found) ↦ elim (Bool-cases (is_readable m.permissions)) [
    | inl readable ↦ inl (m, found, readable, ground (arith, found, readable))
    | inr refused ↦ inr (inl (m, found, refused, ground (arith, found, refused)))
  ]
]

-- A read of a length that is not from 1 to 4096 raises E_BAD_ARGS. Any other returns the bytes at
-- the address, padded with zeros, if the range lies in a module that can be read; it raises
-- E_PERMISSION_DENIED if the module cannot be read, and E_READ_FAILED if the range lies in no
-- module.
pub read_memory_cases :
    (st : MockRuntimeState) (address length : ℤ)
    → ((n : ℕ) × (length ≡ pos n) × (0 < n) × (n ≤ max_read) × LegalRead st address n)
      ⊎ Raises (read_memory st address length) e_bad_args
unfolding read_memory not_positive
read_memory_cases st address (negsuc n) = inr refl
read_memory_cases st address (pos n) = elim (Bool-cases (ltb 0 n)) [
  | inr none_asked ↦ inr (ground arith)
  | inl positive ↦ elim (Bool-cases (ltb max_read n)) [
    | inl large ↦ inr (ground arith)
    | inr fits ↦
        inl (
          n,
          refl,
          ground arith,
          ground arith,
          legal_read st address n (ground arith) (ground arith),
        )
  ]
]

returned :
    (st : MockRuntimeState) (address : ℤ) (n : ℕ) (bs : Bytes)
    → read_memory st address (pos n) ≡ ok bs
    → LegalRead st address n
    → (bs ≡ padded (bytes_at st.memory address) n)
      × (m : MockModule) × Memᴰ m st.modules
      × (contains m address n ≡ true)
      × (is_readable m.permissions ≡ true)
unfolding module_for_address
returned st address n bs h (inl (m, found, readable, e)) =
    let (inside, mem) = first_containing-contains st.modules address n m found in
    (ground (arith, h, e), m, mem, inside, readable)
returned st address n bs h (inr (inl (m, found, refused, e))) = absurd (ground (arith, h, e))
returned st address n bs h (inr (inr (unmapped, e))) = absurd (ground (arith, h, e))

-- A read that returns gives exactly as many bytes as were asked for, from 1 to 4096, and the whole
-- range lies in one module of the map that can be read.
pub read_memory_mapped :
    (st : MockRuntimeState) (address length' : ℤ) (bs : Bytes)
    → read_memory st address length' ≡ ok bs
    → (length' ≡ pos (length bs))
      × (0 < length bs)
      × (length bs ≤ max_read)
      × (m : MockModule) × Memᴰ m st.modules
      × (contains m address (length bs) ≡ true)
      × (is_readable m.permissions ≡ true)
read_memory_mapped st address length' bs h = elim (read_memory_cases st address length') [
  | inr bad ↦ absurd (ground (arith, h, bad))
  | inl (n, is_n, positive, fits, legal) ↦
      let (content, m, mem, inside, readable) = returned st address n bs (rw is_n at h) legal in
      let len : length bs ≡ n = ap length content ∙ length-padded (bytes_at st.memory address) n in
      rw len (is_n, positive, fits, m, mem, inside, readable)
]

read_memory_content :
    (st : MockRuntimeState) (address : ℤ) (n : ℕ) (bs : Bytes)
    → read_memory st address (pos n) ≡ ok bs
    → bs ≡ padded (bytes_at st.memory address) n
read_memory_content st address n bs h = elim (read_memory_cases st address (pos n)) [
  | inr bad ↦ absurd (ground (arith, h, bad))
  | inl (n', is_n, positive, fits, legal) ↦
      let same : n ≡ n' = cc in rw same (returned st address n' bs (rw same at h) legal).0
]

-- A shorter read at the same address returns the beginning of the longer one.
pub read_memory_prefix :
    (st : MockRuntimeState) (address : ℤ) (k n : ℕ) (short long : Bytes)
    → k ≤ n
    → read_memory st address (pos k) ≡ ok short
    → read_memory st address (pos n) ≡ ok long
    → short ≡ take k long
read_memory_prefix st address k n short long h a b =
    read_memory_content st address k short a
    ∙ padded-take (bytes_at st.memory address) k n h
    ∙ ap (take k) (sym (read_memory_content st address n long b))
