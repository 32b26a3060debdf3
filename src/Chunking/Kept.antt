-- ===== src/Chunking/Kept.antt =====
-- What the chunks keep of a text.
use hono_crosmos.Base.{
  ℕ, zero, suc, ◌-◌, ◌≡◌, ◌<◌, refl, sym, ap, subst, ◌∙◌, Bool, true, not, ◌&&◌, some, List, [],
  ◌∷◌, ◌++◌, ltb, ◌==◌, ==_iff, length, drop, arith, inl, inr, Bool-cases, append_assoc, concat,
}
use hono_crosmos.Base.Tables.{All, select_where}
use hono_crosmos.Chunking.Text.{Text, is_space, starts_with, includes, split_from, split, parts_by}

-- Everything but white space and full stops.
abbrev pub is_kept : ℕ → Bool
is_kept c = not (is_space c) && not (c == 46)

abbrev pub kept : Text → Text
kept text = select_where is_kept text

pub kept-append : (s t : Text) → kept (s ++ t) ≡ kept s ++ kept t
unfolding select_where
kept-append [] t = refl
kept-append (c ∷ s) t = ground (arith, kept-append s t)

abbrev pub IsSeparator : Text → Type 0
IsSeparator sep = (0 < length sep) × (kept sep ≡ [])

kept-starts_with :
    (sep text : Text)
    → kept sep ≡ []
    → starts_with sep text ≡ true
    → kept (drop (length sep) text) ≡ kept text
unfolding select_where starts_with
kept-starts_with [] text e h = refl
kept-starts_with (s ∷ sep) [] e h = cc
kept-starts_with (s ∷ sep) (c ∷ text) e h =
    ground (arith, e, h, ==_iff s c, kept-starts_with sep text, Bool-cases (is_kept s))

pub kept-nothing : (text : Text) → kept [] ++ kept text ≡ kept text
unfolding select_where
kept-nothing text = refl

kept-cut :
    (sep : Text) (c : ℕ) (text : Text)
    → IsSeparator sep
    → starts_with sep (c ∷ text) ≡ true
    → kept (drop (length sep - 1) text) ≡ kept (c ∷ text)
kept-cut [] c text (some_left, e) h = absurd (omega (arith, some_left))
kept-cut (s ∷ sep) c text (some_left, e) h =
    let shorter : length (s ∷ sep) - 1 ≡ length sep = omega arith in
    subst (λ n. kept (drop n text) ≡ kept (c ∷ text)) (sym shorter)
      (kept-starts_with (s ∷ sep) (c ∷ text) e h)

kept-split_from :
    (sep : Text) (skip : ℕ) (part text : Text)
    → IsSeparator sep
    → kept (concat (split_from sep skip part text)) ≡ kept part ++ kept (drop skip text)
unfolding split_from
kept-split_from sep zero part [] i = kept-append part []
kept-split_from sep (suc skip) part [] i = kept-append part []
kept-split_from sep (suc skip) part (c ∷ text) i = kept-split_from sep skip part text i
kept-split_from sep zero part (c ∷ text) i = elim (Bool-cases (starts_with sep (c ∷ text))) [
  | inl cut ↦ rw cut (
      kept-append part _
      ∙ ap (λ t. kept part ++ t)
          (kept-split_from sep (length sep - 1) [] text i
            ∙ kept-nothing _
            ∙ kept-cut sep c text i cut))
  | inr not_cut ↦ rw not_cut (
      kept-split_from sep zero (part ++ c ∷ []) text i
      ∙ ap (λ t. t ++ kept text) (kept-append part (c ∷ []))
      ∙ append_assoc (kept part) (kept (c ∷ [])) (kept text)
      ∙ ap (λ t. kept part ++ t) (sym (kept-append (c ∷ []) text)))
]

kept-select_where :
    (parts : List Text)
    → kept (concat (select_where (λ p. ltb 0 (length p)) parts)) ≡ kept (concat parts)
unfolding select_where
kept-select_where [] = refl
kept-select_where ([] ∷ parts) = kept-select_where parts
kept-select_where ((c ∷ p) ∷ parts) =
    let some_left : ltb 0 (suc (length p)) ≡ true = ground arith in
    rw some_left (
      kept-append (c ∷ p) (concat (select_where (λ p. ltb 0 (length p)) parts))
      ∙ ap (λ t. kept (c ∷ p) ++ t) (kept-select_where parts)
      ∙ sym (kept-append (c ∷ p) (concat parts)))

pub kept-parts_by :
    (seps : List Text) (text : Text) (parts : List Text)
    → All IsSeparator seps
    → parts_by seps text ≡ some parts
    → kept (concat parts) ≡ kept text
unfolding parts_by
kept-parts_by [] text parts all e = cc
kept-parts_by (sep ∷ seps) text parts (i, rest) e =
    elim (Bool-cases (includes sep text && not (ltb (length selected) 2))) [
      | inl chosen ↦
          ap (λ ps. kept (concat ps)) (sym (same chosen))
          ∙ kept-select_where (split sep text)
          ∙ kept-split_from sep 0 [] text i
          ∙ kept-nothing text
      | inr passed ↦ kept-parts_by seps text parts rest (ground (arith, e, passed))
    ]
  where
    selected : List Text
    selected = select_where (λ p. ltb 0 (length p)) (split sep text)

    same : (includes sep text && not (ltb (length selected) 2)) ≡ true → selected ≡ parts
    same chosen = ground (arith, e, chosen)
