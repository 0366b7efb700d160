-- ===== src/Tests/Words.antt =====
-- A stack of four words.
use spacewasm.Prelude.{◌+◌, ◌≡◌, refl, some, [], ◌∷◌, inl, arith}
use spacewasm.Stack.{Stack, read_u32, read_u64, write_u64}
use spacewasm.Stack.Words.{IsStack, write_u64_lem}

abbrev four : Stack
four = record { words = 1 ∷ 2 ∷ 3 ∷ 4 ∷ []; size = 4 }

four-IsStack : IsStack four
unfolding IsStack
four-IsStack = refl

write_u64_lem_example :
    (s' : Stack) × ((write_u64 four 1 0x700000005 ≡ some s')
      × IsStack s'
      × (read_u64 s' 1 ≡ some 0x700000005)
      × (read_u32 s' 1 ≡ some 5)
      × (read_u32 s' (1 + 1) ≡ some 7)
      × (read_u32 s' 0 ≡ read_u32 four 0))
write_u64_lem_example =
    write_u64_lem four 1 0x700000005 0 four-IsStack (omega arith) (omega arith) (omega arith)
      (inl (omega arith))
