-- ===== src/Server/Subscriptions/Followers.antt =====
-- Who follows a resource after each change of the subscription table.
use mcp_server.Base.{
  ◌≡◌, refl, sym, ap, ◌∙◌, inl, inr, true, false, ◌&&◌, ◌||◌, not, List, [], ◌∷◌, none, some, arith,
  if◌then◌else◌, if_rule, Bool-cases, Option-cases, ◌==◌, ==_refl, Str, str_eq, str_beq_iff,
  is_empty, Dict, lookup, insert, lookup-insert, lookup-insert_self, lookup-erase, subst,
}
use mcp_server.Server.Subscriptions.{
  includes, include_in, exclude, followers, or_nobody, subscribe_resource, without,
  unsubscribe_resource, cleanup_subscriptions,
}

includes-include_in :
    (j id : Str) (set : List Str) → includes j (include_in id set) ≡ (id == j || includes j set)
unfolding include_in
includes-include_in j id set = elim (Bool-cases (includes id set)) [
  | inl e ↦ rw e (elim (Bool-cases (id == j)) [
    | inl same ↦ rw same (subst (λ x. includes x set ≡ true) ((str_beq_iff id j).0 same) e)
    | inr other ↦ rw other refl
  ])
  | inr e ↦ rw e refl
]

includes-exclude :
    (j id : Str) (set : List Str) → includes j (exclude id set) ≡ (not (id == j) && includes j set)
unfolding exclude
includes-exclude j id [] = ground arith
includes-exclude j id (x ∷ set) =
    ground (arith, includes-exclude j id set, str_beq_iff x id, str_beq_iff x j, str_beq_iff id j)

includes_empty : (j : Str) (set : List Str) → is_empty set ≡ true → includes j set ≡ false
includes_empty j [] e = refl
includes_empty j (x ∷ set) e = absurd (cc)

nobody-exclude :
    (j id : Str) (set : List Str)
    → is_empty (exclude id set) ≡ true
    → (not (id == j) && includes j set) ≡ false
nobody-exclude j id set e = sym (includes-exclude j id set) ∙ includes_empty j (exclude id set) e

inserted :
    (session uri other j : Str) (d : Dict Str (List Str))
    → includes j (followers other (insert uri (include_in session (followers uri d)) d))
      ≡ ((uri == other && session == j) || includes j (followers other d))
inserted session uri other j d =
    let v = include_in session (followers uri d) in
    elim (Bool-cases (uri == other)) [
      | inl s ↦
          subst
            (λ x.
              includes j (followers x (insert uri v d))
              ≡ ((uri == x && session == j) || includes j (followers x d)))
            ((str_beq_iff uri other).0 s)
            (ap (λ o. includes j (or_nobody o)) (lookup-insert_self uri v d)
              ∙ (includes-include_in j session (followers uri d)
                  ∙ ap (λ t. (t && session == j) || includes j (followers uri d))
                      (sym (==_refl uri))))
      | inr o ↦
          ap (λ x. includes j (or_nobody x))
            (lookup-insert uri other v d ∙ ap (λ t. if t then some v else lookup other d) o)
          ∙ ap (λ t. (t && session == j) || includes j (followers other d)) (sym o)
    ]

lookup-without :
    (session uri other : Str) (d : Dict Str (List Str))
    → (uri == other) ≡ false
    → lookup other (without session uri (lookup uri d) d) ≡ lookup other d
unfolding without
lookup-without session uri other d o =
    elim (lookup uri d) as (λ set. lookup other (without session uri set d) ≡ lookup other d) [
      | none ↦ refl
      | some set ↦
          if_rule (λ m. lookup other m ≡ lookup other d) (is_empty (exclude session set))
            (λ _. ground (arith, lookup-erase uri other d))
            (λ _. ground (arith, lookup-insert uri other (exclude session set) d))
    ]

without_here :
    (session uri j : Str) (d : Dict Str (List Str))
    → includes j (followers uri (without session uri (lookup uri d) d))
      ≡ (not (session == j) && includes j (followers uri d))
unfolding without
without_here session uri j d = elim (Option-cases (lookup uri d)) [
  | inl e ↦
      ap (λ o. includes j (followers uri (without session uri o d))) e
      ∙ ground (arith, ap (λ o. includes j (or_nobody o)) e)
  | inr (set, e) ↦
      ap (λ o. includes j (followers uri (without session uri o d))) e
      ∙ (if_rule (λ m. includes j (followers uri m) ≡ (not (session == j) && includes j set))
            (is_empty (exclude session set))
            (λ none_left.
              ap (λ o. includes j (or_nobody o))
                (lookup-erase uri uri d ∙ ap (λ t. if t then none else lookup uri d) (==_refl uri))
              ∙ sym (nobody-exclude j session set none_left))
            (λ _.
              ap (λ o. includes j (or_nobody o)) (lookup-insert_self uri (exclude session set) d)
              ∙ includes-exclude j session set)
          ∙ ap (λ o. not (session == j) && includes j (or_nobody o)) (sym e))
]

removed :
    (session uri other j : Str) (d : Dict Str (List Str))
    → includes j (followers other (without session uri (lookup uri d) d))
      ≡ (not (uri == other && session == j) && includes j (followers other d))
removed session uri other j d = elim (Bool-cases (uri == other)) [
  | inl s ↦
      subst
        (λ x.
          includes j (followers x (without session uri (lookup uri d) d))
          ≡ (not (uri == x && session == j) && includes j (followers x d)))
        ((str_beq_iff uri other).0 s)
        (without_here session uri j d
          ∙ ap (λ t. not (t && session == j) && includes j (followers uri d)) (sym (==_refl uri)))
  | inr o ↦
      ap (λ x. includes j (or_nobody x)) (lookup-without session uri other d o)
      ∙ ap (λ t. not (t && session == j) && includes j (followers other d)) (sym o)
]

-- After subscribe_resource within a session, a session follows a resource exactly when it did before
-- or is the one that subscribed to it; after unsubscribe_resource, exactly when it did before and is
-- not the one that left it. Outside of a session neither changes anything.
pub subscribe-followers :
    (session uri other j : Str) (d : Dict Str (List Str))
    → (includes j (followers other (subscribe_resource session uri d)) ≡ (
        (not (is_empty session) && (uri == other && session == j))
        || includes j (followers other d)))
      × (includes j (followers other (unsubscribe_resource session uri d)) ≡ (
          not (not (is_empty session) && (uri == other && session == j))
          && includes j (followers other d)))
unfolding subscribe_resource unsubscribe_resource
subscribe-followers [] uri other j d = (refl, refl)
subscribe-followers (c ∷ session) uri other j d =
    (inserted (c ∷ session) uri other j d, removed (c ∷ session) uri other j d)

-- After cleanup_subscriptions the session follows no resource.
pub cleanup_forgets :
    (session uri : Str) (d : Dict Str (List Str))
    → includes session (followers uri (cleanup_subscriptions session d)) ≡ false
unfolding cleanup_subscriptions lookup
cleanup_forgets session uri [] = refl
cleanup_forgets session uri ((u, set) ∷ d) =
    if_rule (λ m. includes session (followers uri m) ≡ false) (is_empty (exclude session set))
      (λ _. cleanup_forgets session uri d)
      (λ _.
        if_rule (λ o. includes session (or_nobody o) ≡ false) (u == uri)
          (λ _. ground (arith, includes-exclude session session set, ==_refl session))
          (λ _. cleanup_forgets session uri d))
