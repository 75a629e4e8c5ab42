-- ===== src/Http/Bounds.antt =====
-- The chunk that `lhttp_parser_execute` hands to the parser.
use lev.Base.{
  ℕ, List, some, suc, ◌≡◌, ◌<◌, ◌≤◌, ◌+◌, ◌^◌, ltb, leb, arith, inl, inr, Bool-cases, ◌↔◌,
}
use lev.Base.Int.{pos, negsuc}
use lev.Slab.{MemBlock}
use lev.Buffer.Memory.{World, MemSlice, ok, fault, arg_error, tabulate, read}
use lev.Buffer.Access.{read_ok, load_ok}
use lev.Http.{Call, Library, Callbacks, executed, lhttp_parser_execute}

module _ {Parser : Type 0} (lib : Library Parser) where
  -- The parser on a part of a slice.
  abbrev on_chunk : Callbacks → Parser → MemSlice → ℕ → ℕ → MemBlock → List Call × ℕ × Parser
  on_chunk env parser ms offset len b =
      executed lib env (lib.execute parser (tabulate len (λ i. b.bytes (ms.slice + offset + i))))

  -- For a slice inside its block, and an offset and a length that are not negative: the parser runs
  -- on exactly the bytes from the offset on, as many as the length says, if and only if the offset is
  -- inside the slice and the length does not pass its end; the result is an error of argument 3 if
  -- and only if the offset is not inside, and one of argument 4 if and only if it is and the length
  -- passes the end. Offset and length are below 2^31, as an `int` is.
  pub execute_bounds :
      (env : Callbacks) (parser : Parser) (ms : MemSlice) (offset len : ℕ) (b : MemBlock)
      (w : World)
      → w.heap.block ms.mb ≡ some b
      → ms.slice + ms.until ≤ b.room
      → ms.until < 2 ^ 64
      → offset < 2 ^ 31
      → len < 2 ^ 31
      → ((lhttp_parser_execute lib env parser ms (pos offset) (pos len) w
            ≡ ok (on_chunk env parser ms offset len b, w))
          ↔ ((offset < ms.until) × (offset + len ≤ ms.until)))
        × ((lhttp_parser_execute lib env parser ms (pos offset) (pos len) w ≡ arg_error 3)
            ↔ (ms.until ≤ offset))
        × ((lhttp_parser_execute lib env parser ms (pos offset) (pos len) w ≡ arg_error 4)
            ↔ ((offset < ms.until) × (ms.until < offset + len)))
  unfolding lhttp_parser_execute
  execute_bounds env parser ms offset len b w e inside small o l =
      let r = read_ok ms.mb b (ms.slice + offset) len w e in
      elim (Bool-cases (ltb offset ms.until)) [
        | inr out ↦ ground arith
        | inl lo ↦ elim (Bool-cases (leb (offset + len) ms.until)) [
          | inl hi ↦ ground (arith, r)
          | inr over ↦ ground arith
        ]
      ]

  -- For a slice of less than 2^31 bytes in a block with room for less than 2^63, an offset inside the
  -- slice and a length of -k, with 0 < k up to the offset, both checks pass, and the parser is given
  -- 2^64 - k bytes, which are not in the block: the read faults.
  pub execute_negative :
      (env : Callbacks) (parser : Parser) (ms : MemSlice) (offset k : ℕ) (b : MemBlock) (w : World)
      → w.heap.block ms.mb ≡ some b
      → b.room < 2 ^ 63
      → ms.until < 2 ^ 31
      → offset < ms.until
      → suc k ≤ offset
      → lhttp_parser_execute lib env parser ms (pos offset) (negsuc k) w ≡ fault
  unfolding lhttp_parser_execute read
  execute_negative env parser ms offset k b w e room small o l = ground (arith, load_ok ms.mb b w e)
