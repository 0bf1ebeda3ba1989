-- ===== src/DataLayout/Mapping/Found.antt =====
-- `mapPieces` of vrs/DataLayout.cpp finds a match for each piece that has one, wherever its search starts.
use vrs.Base.{
  ℕ, zero, suc, ◌+◌, ◌≡◌, refl, sym, ◌∙◌, ap, subst, arith, Bool, true, false, ◌||◌, not, min, inl,
  inr, Bool-cases,
}
use vrs.Base.{
  Option, none, some, List, [], ◌∷◌, ◌++◌, length, get_elem?, take, drop, take-append-drop,
  some_injective,
}
use vrs.DataLayout.Mapping.{
  PieceSpec, is_match, find_match, or_search, find_piece, set_offset, map_pieces, any_match,
  all_required_match, IsMapped,
}

or_assoc : (a b c : Bool) → (a || (b || c)) ≡ ((a || b) || c)
or_assoc true b c = refl
or_assoc false b c = refl

any_match-append :
    (p : PieceSpec) (xs ys : List PieceSpec)
    → any_match p (xs ++ ys) ≡ (any_match p xs || any_match p ys)
any_match-append p [] ys = refl
any_match-append p (x ∷ xs) ys =
    ap (λ b. is_match p x || b) (any_match-append p xs ys)
    ∙ or_assoc (is_match p x) (any_match p xs) (any_match p ys)

or_true : (a b : Bool) → b ≡ true → (a || b) ≡ true
or_true true b e = refl
or_true false b e = e

any_match-get_elem? :
    (p : PieceSpec) (xs : List PieceSpec) (i : ℕ) (g : PieceSpec)
    → get_elem? xs i ≡ some g
    → is_match p g ≡ true
    → any_match p xs ≡ true
any_match-get_elem? p [] i g e m = absurd cc
any_match-get_elem? p (x ∷ xs) zero g e m =
    let same : is_match p x ≡ true = ap (is_match p) (some_injective e) ∙ m in rw same refl
any_match-get_elem? p (x ∷ xs) (suc i) g e m =
    or_true (is_match p x) (any_match p xs) (any_match-get_elem? p xs i g e m)

-- What a search finds is in the list and matches; it finds nothing only where nothing matches.
data IsFound (p : PieceSpec) (xs : List PieceSpec) : Option (PieceSpec × ℕ) → Type 0 where
  nothing : any_match p xs ≡ false → IsFound p xs none
  match_at :
      (i : ℕ) (g : PieceSpec) (after : ℕ)
      → get_elem? xs i ≡ some g
      → is_match p g ≡ true
      → IsFound p xs (some (g, after))

behind :
    (p x : PieceSpec) (xs : List PieceSpec) (o : Option (PieceSpec × ℕ))
    → is_match p x ≡ false
    → IsFound p xs o
    → IsFound p (x ∷ xs) o
behind p x xs o differs (nothing e) = nothing (rw differs e)
behind p x xs o differs (match_at i g after e m) = match_at (suc i) g after e m

find_match-IsFound :
    (p : PieceSpec) (xs : List PieceSpec) (index : ℕ) → IsFound p xs (find_match p xs index)
unfolding find_match
find_match-IsFound p [] index = nothing refl
find_match-IsFound p (x ∷ xs) index = elim (Bool-cases (is_match p x)) [
  | inl e ↦ rw e (match_at 0 x (suc index) refl e)
  | inr e ↦
      rw e (behind p x xs (find_match p xs (suc index)) e (find_match-IsFound p xs (suc index)))
]

next_index : (n i : ℕ) → suc (n + i) ≡ suc n + i
next_index n i = omega arith

zero_min : (m : ℕ) → min 0 m ≡ 0
zero_min m = omega arith

min_zero : (m : ℕ) → min m 0 ≡ 0
min_zero m = omega arith

min-suc : (n m : ℕ) → min (suc n) (suc m) ≡ suc (min n m)
min-suc n m = omega arith

get_elem?-drop : (n i : ℕ) (xs : List PieceSpec) → get_elem? (drop n xs) i ≡ get_elem? xs (n + i)
get_elem?-drop zero i xs = ap (get_elem? xs) (omega arith)
get_elem?-drop (suc n) i [] = refl
get_elem?-drop (suc n) i (x ∷ xs) = get_elem?-drop n i xs ∙ ap (get_elem? (x ∷ xs)) (next_index n i)

get_elem?-take :
    (n i : ℕ) (xs : List PieceSpec) (g : PieceSpec)
    → get_elem? (take n xs) i ≡ some g
    → get_elem? xs i ≡ some g
get_elem?-take zero i xs g e = absurd cc
get_elem?-take (suc n) i [] g e = absurd cc
get_elem?-take (suc n) zero (x ∷ xs) g e = e
get_elem?-take (suc n) (suc i) (x ∷ xs) g e = get_elem?-take n i xs g e

drop-min : (n : ℕ) (xs : List PieceSpec) → drop (min n (length xs)) xs ≡ drop n xs
drop-min zero xs = ap (λ k. drop k xs) (zero_min (length xs))
drop-min (suc n) [] = ap (λ k. drop k []) (min_zero (suc n))
drop-min (suc n) (x ∷ xs) = ap (λ k. drop k (x ∷ xs)) (min-suc n (length xs)) ∙ drop-min n xs

no_match :
    (p : PieceSpec) (xs : List PieceSpec) (next : ℕ)
    → any_match p (drop next xs) ≡ false
    → any_match p (take (min next (length xs)) xs) ≡ false
    → any_match p xs ≡ false
no_match p xs next behind before =
    let n = min next (length xs) in
    sym (ap (any_match p) (take-append-drop n xs))
    ∙ any_match-append p (take n xs) (drop n xs)
    ∙ rw (before, drop-min next xs) behind

search-IsFound :
    (p : PieceSpec) (xs : List PieceSpec) (next : ℕ) (a b : Option (PieceSpec × ℕ))
    → IsFound p (drop next xs) a
    → IsFound p (take (min next (length xs)) xs) b
    → IsFound p xs (or_search a b)
search-IsFound p xs next a b (match_at i g after e m) found =
    match_at (next + i) g after (sym (get_elem?-drop next i xs) ∙ e) m
search-IsFound p xs next a b (nothing none_behind) (match_at i g after e m) =
    match_at i g after (get_elem?-take (min next (length xs)) i xs g e) m
search-IsFound p xs next a b (nothing none_behind) (nothing none_before) =
    nothing (no_match p xs next none_behind none_before)

find_piece-IsFound :
    (p : PieceSpec) (xs : List PieceSpec) (next : ℕ) → IsFound p xs (find_piece p xs next)
find_piece-IsFound p xs next =
    search-IsFound p xs next _ _ (find_match-IsFound p (drop next xs) next)
      (find_match-IsFound p (take (min next (length xs)) xs) 0)

set_offset-IsMapped :
    (p : PieceSpec) (given : List PieceSpec) (next : ℕ) (o : Option (PieceSpec × ℕ))
    → IsFound p given o
    → IsMapped given p (set_offset p o next).piece
set_offset-IsMapped p given next o (nothing none_match) = (refl, inr (none_match, refl))
set_offset-IsMapped p given next o (match_at i g after e m) = (refl, inl (i, g, e, m, refl))

set_offset-fine :
    (p : PieceSpec) (given : List PieceSpec) (next : ℕ) (o : Option (PieceSpec × ℕ))
    → IsFound p given o
    → (set_offset p o next).fine ≡ (any_match p given || not p.required)
set_offset-fine p given next o (nothing none_match) = rw none_match refl
set_offset-fine p given next o (match_at i g after e m) =
    rw (any_match-get_elem? p given i g e m) refl

each-IsMapped :
    (pieces given : List PieceSpec) (next i : ℕ) (p : PieceSpec)
    → get_elem? pieces i ≡ some p
    → (p' : PieceSpec) × (get_elem? (map_pieces pieces given next).0 i ≡ some p')
      × IsMapped given p p'
unfolding map_pieces
each-IsMapped [] given next i p e = absurd cc
each-IsMapped (x ∷ pieces) given next zero p e =
    let m = set_offset x (find_piece x given next) next in
    let mapped : IsMapped given x m.piece =
      set_offset-IsMapped x given next (find_piece x given next)
        (find_piece-IsFound x given next) in
    (m.piece, refl, subst (λ (q : PieceSpec). IsMapped given q m.piece) (some_injective e) mapped)
each-IsMapped (x ∷ pieces) given next (suc i) p e =
    each-IsMapped pieces given (set_offset x (find_piece x given next) next).next_match_start_index
      i p e

map_pieces-all_required_match :
    (pieces given : List PieceSpec) (next : ℕ)
    → (map_pieces pieces given next).1 ≡ all_required_match pieces given
unfolding map_pieces
map_pieces-all_required_match [] given next = refl
map_pieces-all_required_match (x ∷ pieces) given next =
    rw
      (
        set_offset-fine x given next (find_piece x given next) (find_piece-IsFound x given next),
        map_pieces-all_required_match pieces given
            (set_offset x (find_piece x given next) next).next_match_start_index,
      )
      refl

-- Wherever the search for the first piece starts, mapping pieces onto given ones makes, of each
-- piece, the same piece with another offset: that of a given piece that matches it, or, only where
-- no given piece matches, the offset for none. It reports success just when every piece that is
-- required has a match.
pub map_pieces-IsMapped :
    (pieces given : List PieceSpec) (next : ℕ)
    → ((i : ℕ) (p : PieceSpec)
        → get_elem? pieces i ≡ some p
        → (p' : PieceSpec) × (get_elem? (map_pieces pieces given next).0 i ≡ some p')
          × IsMapped given p p')
      × ((map_pieces pieces given next).1 ≡ all_required_match pieces given)
map_pieces-IsMapped pieces given next = (
  λ i p e. each-IsMapped pieces given next i p e,
  map_pieces-all_required_match pieces given next,
)
