-- ===== src/Tests/Collation.antt =====
-- A collation: texts in the order of their code points.
use Prim.Native.Char.{code}
use text.Mathlib.TextEquality.{Char-path}
use courtknights.Common.{
  String, ◌≡◌, ◌⊎◌, inl, inr, refl, Bool, true, false, ltb, eqb, ◌||◌, ◌&&◌, arith,
}
use courtknights.Infrastructure.Postgres.Profiles.Sorting.{IsCollation}

unfoldable pub earlier : String → String → Bool
earlier String.[] String.[] = false
earlier String.[] (String.◌∷◌ d t) = true
earlier (String.◌∷◌ c s) String.[] = false
earlier (String.◌∷◌ c s) (String.◌∷◌ d t) =
    let rest = earlier s t in ltb (code c) (code d) || (eqb (code c) (code d) && rest)

earlier_asym : (s t : String) → earlier s t ≡ true → earlier t s ≡ false
unfolding earlier
earlier_asym String.[] String.[] h = refl
earlier_asym String.[] (String.◌∷◌ d t) h = refl
earlier_asym (String.◌∷◌ c s) String.[] h = absurd (cc h)
earlier_asym (String.◌∷◌ c s) (String.◌∷◌ d t) h = ground (arith, h, earlier_asym s t)

earlier_cotrans :
    (s t u : String) → earlier s u ≡ true → (earlier s t ≡ true) ⊎ (earlier t u ≡ true)
unfolding earlier
earlier_cotrans String.[] String.[] u h = inr h
earlier_cotrans String.[] (String.◌∷◌ d t) u h = inl refl
earlier_cotrans (String.◌∷◌ c s) t String.[] h = absurd (cc h)
earlier_cotrans (String.◌∷◌ c s) String.[] (String.◌∷◌ e u) h = inr refl
earlier_cotrans (String.◌∷◌ c s) (String.◌∷◌ d t) (String.◌∷◌ e u) h =
    ground (arith, h, earlier_cotrans s t u)

earlier_total : (s t : String) → earlier s t ≡ false → earlier t s ≡ false → s ≡ t
unfolding earlier
earlier_total String.[] String.[] h k = refl
earlier_total String.[] (String.◌∷◌ d t) h k = absurd (cc h)
earlier_total (String.◌∷◌ c s) String.[] h k = absurd (cc k)
earlier_total (String.◌∷◌ c s) (String.◌∷◌ d t) h k =
    let same : c ≡ d = Char-path c d (ground (arith, h, k)) in
    let rest : s ≡ t = earlier_total s t (ground (arith, h, k)) (ground (arith, h, k)) in
    cc (same, rest)

pub earlier-IsCollation : IsCollation earlier
earlier-IsCollation = record {
  order = record { asym = earlier_asym; cotrans = earlier_cotrans };
  total = earlier_total;
}
