-- ===== src/Security/Stream/Cut.antt =====
-- core-runtime/src/security/stream_sanitizer.rs: where release_cut cuts.
use gg_core.Prelude.{
  ℕ, zero, suc, ◌+◌, ◌-◌, ◌≤◌, ◌<◌, ◌≡◌, refl, Bool, false, some, List, length, get_elem?,
  get_elem?-some, leb, ◌⊎◌, inl, inr, Bool-cases, arith,
}
use gg_core.Security.Stream.{char_indices, joins, back_up, cut_at, release_cut}

module _ (is_alphanumeric : List ℕ → Bool) where
  -- An index that is the first, or does not stand within a run.
  abbrev pub IsApart : List (ℕ × List ℕ) → ℕ → Type 0
  IsApart chars zero = Unit
  IsApart chars (suc i) = joins is_alphanumeric chars i ≡ some false

  joins-some :
      (chars : List (ℕ × List ℕ)) (i : ℕ)
      → suc i < length chars
      → (b : Bool) × (joins is_alphanumeric chars i ≡ some b)
  joins-some chars i h =
      let (a, at) = get_elem?-some chars i (omega arith) in
      let (b, next) = get_elem?-some chars (suc i) h in
      elim (Bool-cases (is_alphanumeric a.1)) [
        | inl e ↦ (is_alphanumeric b.1, ground arith)
        | inr e ↦ (false, ground arith)
      ]

  back_up-IsApart :
      (chars : List (ℕ × List ℕ)) (i : ℕ)
      → i < length chars
      → (idx : ℕ) × (back_up is_alphanumeric chars i ≡ some idx) × (idx ≤ i) × IsApart chars idx
  unfolding back_up
  back_up-IsApart chars zero h = (zero, refl, omega arith, tt)
  back_up-IsApart chars (suc i) h =
      let (idx, found, below, apart) = back_up-IsApart chars i (omega arith) in
      let (b, e) = joins-some chars i h in
      elim (Bool-cases b) [
        | inl joined ↦ (idx, ground arith, omega arith, apart)
        | inr apart' ↦ (suc i, ground arith, omega arith, ground arith)
      ]

  -- The offset of the char at an index, and 0 for the first.
  abbrev Stands : List (ℕ × List ℕ) → ℕ → ℕ → Type 0
  Stands chars idx cut =
      (idx ≡ 0) × (cut ≡ 0) ⊎ (c : List ℕ) × (get_elem? chars idx ≡ some (cut, c))

  cut_at-Stands :
      (chars : List (ℕ × List ℕ)) (idx : ℕ)
      → idx < length chars
      → (cut : ℕ) × (cut_at is_alphanumeric chars (some idx) ≡ some cut) × Stands chars idx cut
  cut_at-Stands chars zero h = (0, refl, inl (refl, refl))
  cut_at-Stands chars (suc i) h =
      let ((cut, c), at) = get_elem?-some chars (suc i) h in (cut, ground arith, inr (c, at))

  -- Where a text longer than what is held back is cut.
  abbrev pub Cuts : List (ℕ × List ℕ) → ℕ → ℕ → Type 0
  Cuts chars held cut =
      (idx : ℕ) × (idx + held ≤ length chars) × IsApart chars idx × Stands chars idx cut

  pub release_cut_lem :
      (text : List ℕ) (held : ℕ)
      → 0 < held
      → (cut : ℕ) × (release_cut is_alphanumeric text held ≡ some cut)
        × ((length (char_indices 0 text) ≤ held) × (cut ≡ 0) ⊎ Cuts (char_indices 0 text) held cut)
  unfolding release_cut
  release_cut_lem text held some_held =
      let chars : List (ℕ × List ℕ) = char_indices 0 text in
      elim (Bool-cases (leb (length chars) held)) [
        | inl short ↦ (0, ground arith, inl (ground arith))
        | inr long ↦
            let (idx, found, below, apart) =
              back_up-IsApart chars (length chars - held) (ground arith) in
            let (cut, is_cut, stands) = cut_at-Stands chars idx (ground arith) in
            (cut, ground arith, inr (idx, ground arith, apart, stands))
      ]
