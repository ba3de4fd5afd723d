-- ===== src/Strings/Tests.antt =====
-- Copies and clearing in a memory where each address holds itself.
use osy.Common.{ℕ, ◌+◌, ◌<◌, ◌≡◌, inl, refl, arith}
use osy.Common.Word.{add32}
use osy.Strings.{Bytes, memcpy, bzero, Outside, memcpy_lem, bzero_lem}

abbrev addresses : Bytes
addresses = λ a. a

memcpy_lem_example :
    ((memcpy 10 12 4 addresses).0 ≡ 10)
    × ((i : ℕ) → i < 4 → (memcpy 10 12 4 addresses).1 (10 + i) ≡ 12 + i)
    × ((a : ℕ) → Outside a 10 4 → (memcpy 10 12 4 addresses).1 a ≡ a)
memcpy_lem_example = memcpy_lem 10 12 4 addresses (omega arith) (omega arith) (inl (omega arith))

bzero_lem_example :
    ((i : ℕ) → i < 4 → bzero 10 4 addresses (10 + i) ≡ 0)
    × ((a : ℕ) → Outside a 10 4 → bzero 10 4 addresses a ≡ a)
bzero_lem_example = bzero_lem 10 4 addresses (omega arith)

memcpy_copied : (memcpy 10 12 4 addresses).1 11 ≡ 13
unfolding memcpy add32
memcpy_copied = refl
