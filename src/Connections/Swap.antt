-- ===== src/Connections/Swap.antt =====
-- `s[i] = s[len(s)-1]; s = s[:len(s)-1]` of connection_manager.go removes one element of the slice
-- and keeps the others, in another order.
use mathlib.Core.List.{Perm, perm_middle}
use mathlib.Core.List.Perm
use whisper2peer.Base.{
  ℕ, suc, ◌-◌, ◌≡◌, refl, ap, sym, ◌∙◌, inl, inr, some, List, [], ◌∷◌, ◌++◌, subst, append_assoc,
  append-nil, arith, length, take, set, get_elem?, Bool, true, false, Bool-cases, if◌then◌else◌,
  keep, not, length-append,
}
use whisper2peer.Connections.Maps.{GoMap, delete}
use whisper2peer.Connections.{Peer, swap_remove, mark_culled, remove_marked}

module _ {A : Type 0} where
  last-take :
      (y : A) (ys : List A)
      → (l : A) × (get_elem? (y ∷ ys) (length ys) ≡ some l)
        × (take (length ys) (y ∷ ys) ++ l ∷ [] ≡ y ∷ ys)
  last-take y [] = (y, refl, refl)
  last-take y (x ∷ ys) = let (l, e, t) = last-take x ys in (l, e, ap (◌∷◌ y) t)

  -- With `l` the last element of the slice.
  swap_remove-eq :
      (x : A) (ys : List A) (i : ℕ) (l : A)
      → get_elem? (x ∷ ys) (length ys) ≡ some l
      → swap_remove (x ∷ ys) i ≡ take (length ys) (set (x ∷ ys) i l)
  unfolding swap_remove
  swap_remove-eq x ys i l e =
      let len : suc (length ys) - 1 ≡ length ys = omega arith in
      rw (len, swap_remove) (rw (e, swap_remove) (ap (λ (n : ℕ). take n (set (x ∷ ys) i l)) len))

  pub swap_remove-cons :
      (p x : A) (ys : List A) (i : ℕ)
      → swap_remove (p ∷ x ∷ ys) (suc i) ≡ p ∷ swap_remove (x ∷ ys) i
  swap_remove-cons p x ys i =
      let (l, e, t) = last-take x ys in
      swap_remove-eq p (x ∷ ys) (suc i) l e ∙ ap (◌∷◌ p) (sym (swap_remove-eq x ys i l e))

  pub swap_remove-zero-perm : (x : A) (ys : List A) → Perm (swap_remove (x ∷ ys) 0) ys
  unfolding swap_remove
  swap_remove-zero-perm x [] = Perm.refl []
  swap_remove-zero-perm x (y ∷ ys) =
      let (l, e, t) = last-take y ys in
      let front : List A = take (length ys) (y ∷ ys) in
      let moved : Perm (front ++ l ∷ []) (l ∷ front) =
        subst (λ s. Perm (front ++ l ∷ []) (l ∷ s)) (append-nil front) (perm_middle front []) in
      subst (λ s. Perm s (y ∷ ys)) (sym (swap_remove-eq x (y ∷ ys) 0 l e))
        (subst (Perm (l ∷ front)) t (Perm.symm moved))

  pub swap_remove-append :
      (before : List A) (x : A) (after : List A)
      → swap_remove (before ++ x ∷ after) (length before) ≡ before ++ swap_remove (x ∷ after) 0
  swap_remove-append [] x after = refl
  swap_remove-append (p ∷ []) x after = swap_remove-cons p x after 0
  swap_remove-append (p ∷ q ∷ before) x after =
      swap_remove-cons p q (before ++ x ∷ after) (suc (length before))
      ∙ ap (◌∷◌ p) (swap_remove-append (q ∷ before) x after)

  pub swap_remove-middle-perm :
      (before : List A) (p : A) (after : List A)
      → Perm (swap_remove (before ++ p ∷ after) (length before)) (before ++ after)
  swap_remove-middle-perm before p after =
      subst (λ s. Perm s (before ++ after)) (sym (swap_remove-append before p after))
        (Perm.append_left before (swap_remove-zero-perm p after))

-- What the second loop of `CullConnections` leaves of the slice `before ++ after`: the peers of
-- `after` that `f` does not pick, in some order.
abbrev Kept : (Peer → Bool) → List Peer → List Peer → List Peer → Type 0
Kept f before after s =
    (kept : List Peer) × (s ≡ before ++ kept) × Perm kept (keep (λ p. not (f p)) after)

Kept-picked :
    (f : Peer → Bool) (before : List Peer) (p : Peer) (after s : List Peer)
    → f p ≡ true
    → Kept f (before ++ p ∷ []) after s
    → Kept f before (p ∷ after) (swap_remove s (length before))
Kept-picked f before p after s e (kept, q, perm) = (
  swap_remove (p ∷ kept) 0,
  ap (λ t. swap_remove t (length before)) (q ∙ append_assoc before (p ∷ []) kept)
      ∙ swap_remove-append before p kept,
  rw e (Perm.trans (swap_remove-zero-perm p kept) perm),
)

Kept-left :
    (f : Peer → Bool) (before : List Peer) (p : Peer) (after s : List Peer)
    → f p ≡ false
    → Kept f (before ++ p ∷ []) after s
    → Kept f before (p ∷ after) s
Kept-left f before p after s e (kept, q, perm) =
    (p ∷ kept, q ∙ append_assoc before (p ∷ []) kept, rw e (Perm.cons p perm))

remove_marked-Kept :
    (f : Peer → Bool) (i : ℕ) (before after : List Peer) (m : GoMap Peer)
    → i ≡ length before
    → Kept f before after (remove_marked (mark_culled f i after m).1 (before ++ after))
unfolding mark_culled remove_marked
remove_marked-Kept f i before [] m e = ([], refl, Perm.refl [])
remove_marked-Kept f i before (p ∷ after) m e =
    let m' = if f p then delete p.connection.id m else m in
    let is = (mark_culled f (suc i) after m').1 in
    let rest : Kept f (before ++ p ∷ []) after (remove_marked is (before ++ p ∷ after)) =
      subst (λ s. Kept f (before ++ p ∷ []) after (remove_marked is s))
        (append_assoc before (p ∷ []) after)
        (remove_marked-Kept f (suc i) (before ++ p ∷ []) after m'
          (omega (arith, length-append before (p ∷ [])))) in
    elim (Bool-cases (f p)) [
      | inl picks ↦
          subst (λ js. Kept f before (p ∷ after) (remove_marked js (before ++ p ∷ after)))
            (sym (ap (λ b. if b then i ∷ is else is) picks))
            (subst
              (λ k.
                Kept f before (p ∷ after) (swap_remove (remove_marked is (before ++ p ∷ after)) k))
              (sym e) (Kept-picked f before p after _ picks rest))
      | inr leaves ↦
          subst (λ js. Kept f before (p ∷ after) (remove_marked js (before ++ p ∷ after)))
            (sym (ap (λ b. if b then i ∷ is else is) leaves))
            (Kept-left f before p after _ leaves rest)
    ]

-- The slice after the loop is the slice before it without the peers picked, in some order.
pub remove_marked-perm :
    (f : Peer → Bool) (s : List Peer) (m : GoMap Peer)
    → Perm (remove_marked (mark_culled f 0 s m).1 s) (keep (λ p. not (f p)) s)
remove_marked-perm f s m =
    let (kept, q, perm) = remove_marked-Kept f 0 [] s m refl in
    subst (λ t. Perm t (keep (λ p. not (f p)) s)) (sym q) perm
