-- ===== src/Service/Requests/Bounds.antt =====
-- service/app.py `_read_capped_body`: which bodies are read.
use mathlib.Core.List.{append-nil, append_assoc}
use quellgeist.Base.{
  ℕ, ◌+◌, ◌≤◌, false, List, [], ◌∷◌, ◌++◌, ◌≡◌, refl, sym, ap, ◌∙◌, ◌↔◌, length, ltb, arith,
  Bool-cases, inl, inr, length-append, subst,
}
use quellgeist.Effects.{ok, ok-injective}
use quellgeist.Service.Requests.{read_chunks, read_capped_body}

-- `b"".join(chunks)`.
abbrev pub joined : List (List ℕ) → List ℕ
joined [] = []
joined (c ∷ cs) = c ++ joined cs

-- The running total of the loop.
grown :
    (total : ℕ) (body chunk : List ℕ)
    → total ≡ length body
    → total + length chunk ≡ length (body ++ chunk)
grown total body chunk e = grind (arith, length-append)

within : (cap n m : ℕ) → n ≡ m → ltb cap n ≡ false → m ≤ cap
within cap n m e t = ground arith

beyond : (cap n m k : ℕ) → n ≡ m → m + k ≤ cap → ltb cap n ≡ false
beyond cap n m k e h = ground arith

read_chunks-ok :
    (cap total : ℕ) (body : List ℕ) (chunks : List (List ℕ)) (out : List ℕ)
    → total ≡ length body
    → length body ≤ cap
    → read_chunks cap total body chunks ≡ ok out
    → (out ≡ body ++ joined chunks) × (length out ≤ cap)
unfolding read_chunks
read_chunks-ok cap total body [] out same small e = (
  sym (ok-injective e) ∙ sym (append-nil body),
  subst (λ o. length o ≤ cap) (ok-injective e) small,
)
read_chunks-ok cap total body (c ∷ cs) out same small e =
    elim (Bool-cases (ltb cap (total + length c))) [
      | inl t ↦ absurd (cc (rw t at e))
      | inr t ↦
          let n : total + length c ≡ length (body ++ c) = grown total body c same in
          let k =
            read_chunks-ok cap (total + length c) (body ++ c) cs out n (within cap _ _ n t)
              (rw t at e) in
          (k.0 ∙ append_assoc body c _, k.1)
    ]

read_chunks-fits :
    (cap total : ℕ) (body : List ℕ) (chunks : List (List ℕ))
    → total ≡ length body
    → length (body ++ joined chunks) ≤ cap
    → read_chunks cap total body chunks ≡ ok (body ++ joined chunks)
unfolding read_chunks
read_chunks-fits cap total body [] same fits = ap ok (sym (append-nil body))
read_chunks-fits cap total body (c ∷ cs) same fits =
    let n : total + length c ≡ length (body ++ c) = grown total body c same in
    let whole : length ((body ++ c) ++ joined cs) ≤ cap =
      subst (λ b. length b ≤ cap) (sym (append_assoc body c (joined cs))) fits in
    let t : ltb cap (total + length c) ≡ false =
      beyond cap _ _ (length (joined cs)) n
        (subst (λ m. m ≤ cap) (length-append (body ++ c) _) whole) in
    rw t (
      read_chunks-fits cap (total + length c) (body ++ c) cs n whole
      ∙ ap ok (append_assoc body c _))

-- The body is read exactly when all the chunks together are within the cap, and then it is the
-- chunks joined.
pub read_capped_body_iff :
    (cap : ℕ) (chunks : List (List ℕ)) (body : List ℕ)
    → (read_capped_body cap chunks ≡ ok body) ↔ ((body ≡ joined chunks) × (length body ≤ cap))
unfolding read_capped_body
read_capped_body_iff cap chunks body = (
  λ e. read_chunks-ok cap 0 [] chunks body refl (omega arith) e,
  λ h.
      read_chunks-fits cap 0 [] chunks refl (subst (λ b. length b ≤ cap) h.0 h.1) ∙ ap ok (sym h.0),
)
