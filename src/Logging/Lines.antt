-- ===== src/Logging/Lines.antt =====
-- Texts that Logging.cc puts into a line's stream.
use simplev.Prelude.{
  ℕ, ◌+◌, ◌-◌, ◌≡◌, ◌<◌, sym, ap, subst, ◌∙◌, List, [], ◌∷◌, ◌++◌, length, arith, length-append,
  length-take, append_assoc, ok, ◌>>=◌, inl, inr,
}
use simplev.LogStream.{FixedBuffer, Item, text, avail, put, put_all}
use simplev.LogStream.Line.{IsValid, line, Puts, put_lem, put_all_lem, AllInRange}

pub length-line : (b : FixedBuffer) → IsValid b → length (line b) ≡ b.cur
length-line b v = omega (arith, length-take b.cur b.array, v.inside)

-- Text for which there is room is put into the line.
put-text :
    (t : List ℕ) (b : FixedBuffer)
    → IsValid b
    → length t < avail b
    → (b' : FixedBuffer) × (put (text t) b ≡ ok b') × Puts b t b'
put-text t b v room = elim (put_lem (text t) b v (omega (arith, room, v.bounded))) [
  | inl (b', s, ran, shows, p) ↦ (b', ran, subst (λ u. Puts b u b') shows p)
  | inr (_, little) ↦ absurd (omega (arith, room, little))
]

avail-Puts :
    (b : FixedBuffer) (s : List ℕ) (b' : FixedBuffer)
    → IsValid b
    → Puts b s b'
    → avail b' ≡ avail b - length s
avail-Puts b s b' v p = omega (
  arith,
  length-line b v,
  length-line b' p.valid,
  p.size_kept,
  ap length p.shows,
  length-append (line b) s,
)

put_first :
    (t : List ℕ) (rest : List Item) (b : FixedBuffer)
    → IsValid b
    → length t < avail b
    → (b' : FixedBuffer) × (put_all (text t ∷ rest) b ≡ put_all rest b')
      × Puts b t b'
      × (avail b' ≡ avail b - length t)
unfolding put_all
put_first t rest b v room =
    let (b', ran, p) = put-text t b v room in
    (b', ap (λ m. m >>= put_all rest) ran, p, avail-Puts b t b' v p)

Puts-trans :
    {b b₁ b₂ : FixedBuffer} (s t : List ℕ) → Puts b s b₁ → Puts b₁ t b₂ → Puts b (s ++ t) b₂
Puts-trans {b} s t p q = record {
  valid = q.valid;
  size_kept = q.size_kept ∙ p.size_kept;
  shows = q.shows ∙ (ap (λ (u : List ℕ). u ++ t) p.shows ∙ append_assoc (line b) s t);
}

-- Items that put `head` and more into the line.
abbrev pub PutsHead : List Item → FixedBuffer → List ℕ → Type 0
PutsHead items b head =
    (b' : FixedBuffer) × (body : List ℕ) × (put_all items b ≡ ok b') × Puts b (head ++ body) b'

-- One more text in front, where there is room.
put_before :
    (s head : List ℕ) (items : List Item) (b : FixedBuffer)
    → IsValid b
    → length s < avail b
    → ((b₁ : FixedBuffer) → IsValid b₁ → avail b₁ ≡ avail b - length s → PutsHead items b₁ head)
    → PutsHead (text s ∷ items) b (s ++ head)
put_before s head items b v room next =
    let (b₁, e₁, p₁, a₁) = put_first s items b v room in join b₁ e₁ p₁ (next b₁ p₁.valid a₁)
  where
    join :
        (b₁ : FixedBuffer)
        → put_all (text s ∷ items) b ≡ put_all items b₁
        → Puts b s b₁
        → PutsHead items b₁ head
        → PutsHead (text s ∷ items) b (s ++ head)
    join b₁ e₁ p₁ (b', body, e, p) = (
      b',
      body,
      e₁ ∙ e,
      subst (λ t. Puts b t b') (sym (append_assoc s head body)) (Puts-trans s (head ++ body) p₁ p),
    )

put_rest :
    (items : List Item) (b : FixedBuffer) → IsValid b → AllInRange items → PutsHead items b []
put_rest items b v range = let (b', body, e, p) = put_all_lem items b v range in (b', body, e, p)

-- Four texts at the start, and any items.
pub put_head :
    (s t u w : List ℕ) (rest : List Item) (b : FixedBuffer)
    → IsValid b
    → length s + length t + length u + length w < avail b
    → AllInRange rest
    → PutsHead (text s ∷ text t ∷ text u ∷ text w ∷ rest) b (s ++ (t ++ (u ++ (w ++ []))))
put_head s t u w rest b v room range = put_before s _ _ b v (omega (arith, room)) λ b₁ v₁ a₁.
    put_before t _ _ b₁ v₁ (omega (arith, room, a₁)) λ b₂ v₂ a₂.
      put_before u _ _ b₂ v₂ (omega (arith, room, a₁, a₂)) λ b₃ v₃ a₃.
        put_before w _ _ b₃ v₃ (omega (arith, room, a₁, a₂, a₃))
          λ b₄ v₄ a₄. put_rest rest b₄ v₄ range
