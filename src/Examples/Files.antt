-- ===== src/Examples/Files.antt =====
-- The file system: the theorems at concrete calls.
use lev.Handle.Receive.{as_size}
use lev.Base.{
  ℕ, ◌≡◌, refl, some, none, List, [], ◌∷◌, true, false, ◌%◌, length, arith, ◌≤◌, ◌≢◌, ◌⊎◌, ◌<◌,
}
use lev.Base.Int.{pos}
use lev.Buffer.Memory.{MemSlice}
use lev.Handle.{Registry, lev_handle_ref, init_ref}
use lev.Handle.Counter.{IsFresh}
use lev.Fs.Modes.{mode_of}
use lev.Fs.Results.{
  Req, other, readdir, permission_text, push_results, push_readdir_results, nil, names, boolean,
  push_exists_results,
}
use lev.Fs.Permission.{mode_of-permission_text}
use lev.Fs.Names.{joined, readdir_results-joined, AreNames}
use lev.Fs.Calls.{fs_write, callback, transfer_length, transfer_length_bounds}
use lev.Fs.Request.{
  perform, Course, returned, yielded, resumed, set_opt_cb, exists_teardown, create_holder,
}
use lev.Fs.Delivery.{perform-Delivers}

abbrev registry : Registry
registry = record { held = λ k. none; next = 1 }

registry-IsFresh : IsFresh registry
registry-IsFresh k l = refl

-- The names `a` and `bc`.
abbrev found : List (List ℕ)
found = (97 ∷ []) ∷ (98 ∷ 99 ∷ []) ∷ []

-- A request that is begun, and one that has read a directory.
abbrev begun : Req
begun = record { result = pos 0; error = []; done = other }

abbrev finished : Req
finished = record { result = pos 2; error = []; done = readdir (97 ∷ 0 ∷ 98 ∷ 99 ∷ 0 ∷ []) }

perform-Delivers_example :
    (course : Course) × (perform 1 (some 2) false begun finished registry ≡ some course)
    × (course.reply ≡ yielded)
    × (course.delivered ≡ some (resumed (nil ∷ names found ∷ [])))
    × ((k : ℕ) → course.registry.held k ≡ none)
unfolding push_results push_readdir_results
perform-Delivers_example =
    perform-Delivers 1 (some 2) false begun finished (nil ∷ names found ∷ []) registry refl refl
      registry-IsFresh

found-AreNames : AreNames found
found-AreNames = (((λ e. ground arith), tt), (((λ e. ground arith), ((λ e. ground arith), tt)), tt))

readdir_results-joined_example :
    push_readdir_results (length found) (joined found (7 ∷ [])) ≡ some found
readdir_results-joined_example = readdir_results-joined found (7 ∷ []) found-AreNames

-- A file that its owner can write and all can read.
mode_of-permission_text_example : mode_of (permission_text 0x81a4) ≡ 0x81a4 % 4096
mode_of-permission_text_example = mode_of-permission_text 0x81a4 (omega arith)

abbrev slice : MemSlice
slice = record { mb = 7; slice = 8; until = 16 }

transfer_length_bounds_example :
    (transfer_length slice (some (pos 5)) ≤ 16)
    × (as_size (pos 5) ≢ 0
        → as_size (pos 5) ≤ 16
        → transfer_length slice (some (pos 5)) ≡ as_size (pos 5))
    × ((as_size (pos 5) ≡ 0) ⊎ (16 < as_size (pos 5)) → transfer_length slice (some (pos 5)) ≡ 16)
transfer_length_bounds_example = transfer_length_bounds slice (some (pos 5))

-- A write cannot have a callback.
write_callback : fs_write (pos 3) slice none callback ≡ none
unfolding fs_write
write_callback = refl

-- `exists` with a callback returns true before the request is done.
exists_early :
    exists_teardown (set_opt_cb 1 none true registry).0 true begun
    ≡ (returned (boolean true ∷ []), false)
unfolding exists_teardown set_opt_cb lev_handle_ref create_holder init_ref push_exists_results
exists_early = refl
