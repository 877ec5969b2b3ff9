-- ===== src/Tests/Buffers.antt =====
-- The buffer on concrete bytes.
use goads.Base.{ℕ, List, [], ◌∷◌, ◌++◌, ◌≡◌, arith}
use goads.Ams.Outcome.{done, eof}
use goads.Ams.Buffer.{
  new_buffer, read_float32_slice, write_float32_slice, put_all, write_uint32_slice,
  read_uint32_slice, return_err,
}
use goads.Ams.Buffer.Sticky.{
  MethodCall, reads_full, writes_uint32, writes_uint32_slice, reads_struct, run_calls, idle_all,
  broken, error_is_sticky,
}
use goads.Ams.Buffer.Slices.{slice_transfers}

slice_transfers_example :
    (write_uint32_slice (10 ∷ 11 ∷ []) (new_buffer [])
      ≡ done (tt, new_buffer (put_all (10 ∷ 11 ∷ []))))
    × (read_uint32_slice 2 (new_buffer (put_all (10 ∷ 11 ∷ []) ++ (5 ∷ [])))
        ≡ done (10 ∷ 11 ∷ [], new_buffer (5 ∷ [])))
    × (write_float32_slice (10 ∷ 11 ∷ []) (new_buffer [])
        ≡ done (tt, new_buffer (put_all (10 ∷ 11 ∷ []))))
    × (read_float32_slice 2 (new_buffer (put_all (10 ∷ 11 ∷ []) ++ (5 ∷ [])))
        ≡ done (10 ∷ 11 ∷ [], new_buffer (5 ∷ [])))
slice_transfers_example = slice_transfers (10 ∷ 11 ∷ []) [] (5 ∷ []) (omega arith)

-- Calls of the methods: a read, two writes and a codec.
abbrev calls : List (MethodCall ℕ)
calls =
    reads_full (1 ∷ 2 ∷ [])
    ∷ writes_uint32 5
    ∷ writes_uint32_slice (3 ∷ [])
    ∷ reads_struct return_err 6
    ∷ []

error_is_sticky_example :
    run_calls calls (broken (7 ∷ 8 ∷ 9 ∷ []) eof)
    ≡ done (idle_all calls, broken (7 ∷ 8 ∷ 9 ∷ []) eof)
error_is_sticky_example = error_is_sticky calls (7 ∷ 8 ∷ 9 ∷ []) eof
