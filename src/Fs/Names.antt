-- ===== src/Fs/Names.antt =====
-- The names of a directory, as libuv gives them and as they are pushed.
use lev.Base.{ℕ, ◌≡◌, ◌≢◌, refl, List, [], ◌∷◌, ◌++◌, some, ◌==◌, length, arith, false}
use lev.Fs.Results.{up_to_nul, push_readdir_results}

-- The names one behind the other, each with its NUL, and what follows in the memory.
unfoldable pub joined : List (List ℕ) → List ℕ → List ℕ
joined [] rest = rest
joined (n ∷ ns) rest = n ++ 0 ∷ joined ns rest

abbrev pub HasNoNul : List ℕ → Type 0
HasNoNul [] = Unit
HasNoNul (c ∷ s) = (c ≢ 0) × HasNoNul s

abbrev pub AreNames : List (List ℕ) → Type 0
AreNames [] = Unit
AreNames (n ∷ ns) = HasNoNul n × AreNames ns

up_to_nul_lem : (n rest : List ℕ) → HasNoNul n → up_to_nul (n ++ 0 ∷ rest) ≡ some (n, rest)
up_to_nul_lem [] rest h = refl
up_to_nul_lem (c ∷ s) rest (h, hs) =
    let e : (c == 0) ≡ false = ground arith in rw (up_to_nul_lem s rest hs, e) refl

-- `push_readdir_results` gives back the names that stand in the memory, each ended by a NUL, whatever
-- follows them, when it is asked for as many as there are.
pub readdir_results-joined :
    (ns : List (List ℕ)) (rest : List ℕ)
    → AreNames ns
    → push_readdir_results (length ns) (joined ns rest) ≡ some ns
unfolding push_readdir_results joined
readdir_results-joined [] rest h = refl
readdir_results-joined (n ∷ ns) rest (h, hs) =
    rw (up_to_nul_lem n (joined ns rest) h, readdir_results-joined ns rest hs, push_readdir_results)
      refl
