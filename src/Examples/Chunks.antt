-- ===== src/Examples/Chunks.antt =====
-- The HTTP parser's binding, on a library that reads all it gets as a body.
use lev.Base.{[], ◌∷◌, length, none, true, refl, arith, ◌≡◌, ◌+◌, ◌<◌, ◌≤◌, ◌↔◌}
use lev.Base.Int.{pos}
use lev.Buffer.Memory.{World, MemSlice, ok, arg_error, tabulate}
use lev.Examples.Shelves.{shared_block, one_block}
use lev.Http.{Library, Callbacks, body, executed, lhttp_parser_execute}
use lev.Http.Bounds.{execute_bounds}

abbrev body_library : Library (Unit {0})
body_library = record {
  init = λ type. tt;
  execute = λ parser chunk. (body chunk ∷ [], length chunk, tt);
  errno_description = λ parser. "";
  parse_url = λ s is_connect. none;
}

abbrev all_callbacks : Callbacks
all_callbacks name = true

abbrev world : World
world = record { heap = one_block shared_block; static_mb = none }

abbrev slice : MemSlice
slice = record { mb = 7; slice = 4; until = 20 }

execute_bounds_example :
    ((lhttp_parser_execute body_library all_callbacks tt slice (pos 3) (pos 5) world
        ≡ ok (
          executed body_library all_callbacks
              (body_library.execute tt (tabulate 5 (λ i. shared_block.bytes (4 + 3 + i)))),
          world,
        ))
      ↔ ((3 < 20) × (3 + 5 ≤ 20)))
    × ((lhttp_parser_execute body_library all_callbacks tt slice (pos 3) (pos 5) world
          ≡ arg_error 3)
        ↔ (20 ≤ 3))
    × ((lhttp_parser_execute body_library all_callbacks tt slice (pos 3) (pos 5) world
          ≡ arg_error 4)
        ↔ ((3 < 20) × (20 < 3 + 5)))
execute_bounds_example =
    execute_bounds body_library all_callbacks tt slice 3 5 shared_block world refl (omega arith)
      (omega arith) (omega arith) (omega arith)
