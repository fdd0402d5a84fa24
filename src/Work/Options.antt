-- ===== src/Work/Options.antt =====
-- gear/work.c: the array `mg_options`, which has room for 14 entries.
use gonggo.Base.{
  refl, ◌≡◌, ◌≤◌, ◌+◌, ◌%◌, List, arith, length, Bool-cases, Option-cases, inl, inr, codes,
}
use gonggo.Base.Int.{ℤ}
use gonggo.Conf.{ConfVar, confvar_value}
use gonggo.Work.{mg_options, positive}

-- Whatever the configuration says, the options are pairs, and two entries of the array are left, so
-- that the NULL that ends it is there.
pub mg_options-length :
    (cv : List ConfVar) (ping : ℤ)
    → (length (mg_options cv ping) + 2 ≤ 14) × (length (mg_options cv ping) % 2 ≡ 0)
unfolding mg_options
mg_options-length cv ping = elim (Option-cases (confvar_value cv (codes "sslcert"))) [
  | inl e ↦ elim (Option-cases (confvar_value cv (codes "threads"))) [
    | inl f ↦ elim (Bool-cases (positive ping)) [
      | inl g ↦ rw (e, f, g, mg_options) ((omega arith, refl))
      | inr g ↦ rw (e, f, g, mg_options) ((omega arith, refl))
    ]
    | inr (x, f) ↦ elim (Bool-cases (positive ping)) [
      | inl g ↦ rw (e, f, g, mg_options) ((omega arith, refl))
      | inr g ↦ rw (e, f, g, mg_options) ((omega arith, refl))
    ]
  ]
  | inr (y, e) ↦ elim (Option-cases (confvar_value cv (codes "threads"))) [
    | inl f ↦ elim (Bool-cases (positive ping)) [
      | inl g ↦ rw (e, f, g, mg_options) ((omega arith, refl))
      | inr g ↦ rw (e, f, g, mg_options) ((omega arith, refl))
    ]
    | inr (x, f) ↦ elim (Bool-cases (positive ping)) [
      | inl g ↦ rw (e, f, g, mg_options) ((omega arith, refl))
      | inr g ↦ rw (e, f, g, mg_options) ((omega arith, refl))
    ]
  ]
]
