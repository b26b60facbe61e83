-- ===== src/Tests/Streams.antt =====
-- Two descriptor chains, and the theorems about streams at them.
use ovfs.Prelude.{ℕ, ◌≤◌, ◌≡◌, refl, arith, min, List, [], ◌∷◌, take, drop}
use ovfs.Prelude.Outcome.{ok, err}
use ovfs.Memory.{load, store}
use ovfs.Chain.{DescriptorChainConsumer, checked_add, split_at, out_of_bounds}
use ovfs.Chain.Flat.{IsValid, left, room}
use ovfs.Chain.Consume.{IsAfter}
use ovfs.Chain.Split.{split_at_lem, split_at-out_of_bounds}
use ovfs.Stream.{Reader, Writer, read, read_exact, write_all, no_write, eof}
use ovfs.Stream.Read.{read_lem, read_exact_lem, read_exact-eof}
use ovfs.Stream.Write.{write_all_lem, write_all-no_room}
use ovfs.Stream.Open.{
  Descriptor, collect, open_slice, checked_sub, reader_new, writer_new, total_len, reader_new_lem,
  writer_new_lem,
}
use ovfs.Buffer.{write_from_at, read_to_at}
use ovfs.Buffer.Copy.{write_from_at_lem, read_to_at_lem}
use ovfs.Tests.Guest.{
  ram, ram-IsGuestMemory, guest, guest-IsVolatile, chain, reader, writer, memory, chain-IsValid,
  chain-room,
}

split_at_example :
    (a b : DescriptorChainConsumer guest) × (split_at guest 4 chain ≡ ok (a, b))
    × (left guest a ≡ take 4 (left guest chain))
    × (left guest b ≡ drop 4 (left guest chain))
    × (a.bytes_consumed ≡ 0)
    × (b.bytes_consumed ≡ 0)
split_at_example = split_at_lem guest guest-IsVolatile 4 chain (omega (arith, chain-room))

split_at-out_of_bounds_example : split_at guest 9 chain ≡ err out_of_bounds
split_at-out_of_bounds_example = split_at-out_of_bounds guest 9 chain (omega (arith, chain-room))

read_example :
    let n = min 4 (room guest chain) in
    (r' : Reader guest) × (read guest memory reader 4
      ≡ ok (n, load memory (take 4 (left guest chain)), r'))
    × IsAfter guest chain n r'.buffer
read_example = read_lem guest guest-IsVolatile memory reader 4 chain-IsValid

read_exact_example :
    (r' : Reader guest) × (read_exact guest memory reader 4
      ≡ ok (load memory (take 4 (left guest chain)), r'))
    × IsAfter guest chain 4 r'.buffer
read_exact_example =
    read_exact_lem guest guest-IsVolatile memory reader 4 chain-IsValid (omega (arith, chain-room))

read_exact-eof_example : read_exact guest memory reader 9 ≡ err eof
read_exact-eof_example =
    read_exact-eof guest guest-IsVolatile memory reader 9 chain-IsValid (omega (arith, chain-room))

abbrev four : List ℕ
four = 1 ∷ 2 ∷ 3 ∷ 4 ∷ []

abbrev nine : List ℕ
nine = 1 ∷ 2 ∷ 3 ∷ 4 ∷ 5 ∷ 6 ∷ 7 ∷ 8 ∷ 9 ∷ []

write_all_example :
    (w' : Writer guest) × (write_all guest writer four memory
      ≡ (ok w', store memory (left guest chain) four))
    × IsAfter guest chain 4 w'.buffer
write_all_example =
    write_all_lem guest guest-IsVolatile writer four memory chain-IsValid
      (omega (arith, chain-room))

write_all-no_room_example :
    write_all guest writer nine memory ≡ (err no_write, store memory (left guest chain) nine)
write_all-no_room_example =
    write_all-no_room guest guest-IsVolatile writer nine memory chain-IsValid
      (omega (arith, chain-room))

abbrev descriptors : List Descriptor
descriptors = (record { addr = 100; len = 3 }) ∷ (record { addr = 200; len = 5 }) ∷ []

reader_new_example : IsValid guest chain × (room guest chain ≡ total_len guest ram descriptors)
unfolding reader_new collect open_slice checked_add checked_sub
reader_new_example = reader_new_lem guest ram ram-IsGuestMemory descriptors {r = reader} refl

writer_new_example : IsValid guest chain × (room guest chain ≡ total_len guest ram descriptors)
unfolding writer_new collect open_slice checked_add checked_sub
writer_new_example = writer_new_lem guest ram ram-IsGuestMemory descriptors {w = writer} refl

write_from_at_example :
    let n = min 4 (room guest chain) in
    (w' : Writer guest) × (write_from_at guest writer (record { buffer = four }) 4 memory
      ≡ (ok (n, w'), store memory (left guest chain) four))
    × IsAfter guest chain n w'.buffer
write_from_at_example =
    write_from_at_lem guest guest-IsVolatile writer (record { buffer = four }) memory chain-IsValid
      (omega arith, (omega arith, tt))

read_to_at_example :
    (n : ℕ) × (r' : Reader guest) × (read_to_at guest memory reader 4 (record { buffer = [] })
      ≡ (ok (n, r'), record { buffer = load memory (take n (left guest chain)) }))
    × IsAfter guest chain n r'.buffer
    × (min 4 (room guest chain) ≤ n)
    × (n ≤ room guest chain)
read_to_at_example = read_to_at_lem guest guest-IsVolatile memory reader 4 chain-IsValid
