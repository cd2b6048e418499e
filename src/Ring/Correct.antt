-- ===== src/Ring/Correct.antt =====
-- What the operations of lib/list.c make of a ring.
use mathlib.Core.Path.{subst}
use mathlib.Core.List.{append-nil}
use aos_labs_2023_rbtree.Ring.{Ptr, null, Mem, insert_after, insert_before, del, add, add_tail}
use aos_labs_2023_rbtree.Rbtree.Tree.{occ_le, occ_of_ne, occ, occ_self, ne_of_occ}
use aos_labs_2023_rbtree.Base.{
  ◌⊎◌, eq_of_test, ne_of_test, ◌+◌, ◌<◌, ◌≤◌, ◌≡◌, ◌≢◌, sym, List, [], ◌∷◌, ◌++◌, arith, update,
  test_ne, test_self, Bool-cases, inl, inr, ◌==◌,
}
use aos_labs_2023_rbtree.Base.Run.{ok}
use aos_labs_2023_rbtree.Ring.Chain.{
  Chain, Once, occurrences, occurrences-append, last_of, head_of, occ-last_of, occ-head_of,
  Chain-next, Chain-prev, spliced, Chain-spliced, unspliced, Chain-unspliced,
}

-- The ring from `h` through `xs` back to `h`: its nodes are different, and none is NULL.
pub record IsRing (m : Mem) (h : Ptr) (xs : List Ptr) : Type 0 where
  pub chain : Chain m h xs h
  pub once : (c : Ptr) → occ c h + occurrences c xs ≤ 1
  pub set : (c : Ptr) → 0 < occ c h + occurrences c xs → c ≢ null

IsRing-Once : (m : Mem) (h : Ptr) (xs : List Ptr) → IsRing m h xs → Once h xs h
IsRing-Once m h xs v = record { sources = v.once; targets = λ c. omega (arith, v.once c) }

-- `x` stands in no place of the ring.
pub record IsApart (h : Ptr) (xs : List Ptr) (x : Ptr) : Type 0 where
  pub set : x ≢ null
  pub out : occ x h + occurrences x xs ≡ 0

pub insert_after-spliced :
    (u x : Ptr) (m : Mem)
    → u ≢ null
    → x ≢ null
    → x ≢ u
    → m.next u ≢ null
    → insert_after u x m ≡ ok tt (spliced u x (m.next u) m)
unfolding insert_after
insert_after-spliced u x m un xn ne vn = simp (
  test_ne x null xn,
  test_ne u null un,
  test_ne u x (λ e. ne (sym e)),
  test_ne (m.next u) null vn,
)

pub insert_before-spliced :
    (v x : Ptr) (m : Mem)
    → v ≢ null
    → x ≢ null
    → x ≢ v
    → m.prev v ≢ null
    → insert_before v x m ≡ ok tt (spliced (m.prev v) x v m)
unfolding insert_before
insert_before-spliced v x m vn xn ne un = simp (
  test_ne x null xn,
  test_ne v null vn,
  test_ne v x (λ e. ne (sym e)),
  test_ne (m.prev v) null un,
)

update_self : (f : Ptr → Ptr) (p x : Ptr) → update f p (f x) x ≡ f x
update_self f p x = elim (Bool-cases (x == p)) [ inl e ↦ simp (e) | inr e ↦ simp (e) ]

del-unspliced :
    (x : Ptr) (m : Mem)
    → x ≢ null
    → m.prev x ≢ null
    → m.next x ≢ null
    → del x m ≡ ok tt (unspliced (m.prev x) x (m.next x) m)
unfolding del
del-unspliced x m xn pn nn = simp (
  test_ne x null xn,
  test_ne (m.prev x) null pn,
  update_self m.next (m.prev x) x,
  test_ne (m.next x) null nn,
)

same_or_not : (c x : Ptr) → (c ≡ x) ⊎ (occ c x ≡ 0)
same_or_not c x = elim (Bool-cases (c == x)) [
  | inl e ↦ inl (eq_of_test c x e)
  | inr e ↦ inr (occ_of_ne c x (ne_of_test c x e))
]

pub occurrences-middle :
    (c x : Ptr) (xs ys : List Ptr)
    → occurrences c (xs ++ x ∷ ys) ≡ occ c x + occurrences c (xs ++ ys)
occurrences-middle c x xs ys =
    omega (arith, occurrences-append c xs (x ∷ ys), occurrences-append c xs ys)

-- A ring with a node more, at any place.
pub IsRing-spliced :
    (m : Mem) (h x : Ptr) (xs ys : List Ptr)
    → IsRing m h (xs ++ ys)
    → IsApart h (xs ++ ys) x
    → IsRing (spliced (last_of h xs) x (head_of ys h) m) h (xs ++ x ∷ ys)
IsRing-spliced m h x xs ys v a = record {
  chain = Chain-spliced m h x h xs ys v.chain (IsRing-Once m h (xs ++ ys) v) (omega (arith, a.out));
  once = λ c. elim (same_or_not c x) [
    | inl e ↦
        subst (λ d. occ d h + occurrences d (xs ++ x ∷ ys) ≤ 1) (sym e)
          (omega (arith, occurrences-middle x x xs ys, occ_self x, a.out))
    | inr e ↦ omega (arith, occurrences-middle c x xs ys, v.once c)
  ];
  set = λ c p. elim (same_or_not c x) [
    | inl e ↦ subst (λ d. d ≢ null) (sym e) a.set
    | inr e ↦ v.set c (omega (arith, occurrences-middle c x xs ys))
  ];
}

pub last_set : (m : Mem) (h : Ptr) (xs ys : List Ptr) → IsRing m h (xs ++ ys) → last_of h xs ≢ null
last_set m h xs ys v =
    let u = last_of h xs in
    v.set u (omega (arith, occ_self u, occ-last_of u h xs, occurrences-append u xs ys))

pub head_set : (m : Mem) (h : Ptr) (xs ys : List Ptr) → IsRing m h (xs ++ ys) → head_of ys h ≢ null
head_set m h xs ys v =
    let u = head_of ys h in
    v.set u (omega (arith, occ_self u, occ-head_of u h ys, occurrences-append u xs ys))

pub middle_next :
    (m : Mem) (a x b : Ptr) (xs ys : List Ptr)
    → Chain m a (xs ++ x ∷ ys) b
    → (m.next x ≡ head_of ys b) × (m.prev x ≡ last_of a xs)
middle_next m a x b [] [] c = (c.2.0, c.1)
middle_next m a x b [] (y ∷ ys) c = (c.2.0, c.1)
middle_next m a x b (z ∷ xs) ys c = middle_next m z x b xs ys c.2

-- A ring with a node less, from any place.
IsRing-unspliced :
    (m : Mem) (h x : Ptr) (xs ys : List Ptr)
    → IsRing m h (xs ++ x ∷ ys)
    → IsRing (unspliced (last_of h xs) x (head_of ys h) m) h (xs ++ ys)
IsRing-unspliced m h x xs ys v =
    let once' : Once h (xs ++ ys) h = record {
      sources = λ c. omega (arith, v.once c, occurrences-middle c x xs ys);
      targets = λ c. omega (arith, v.once c, occurrences-middle c x xs ys);
    } in
    record {
      chain =
          Chain-unspliced m h x h xs ys v.chain once'
            (omega (arith, v.once x, occurrences-middle x x xs ys, occ_self x));
      once = once'.sources;
      set = λ c p. v.set c (omega (arith, occurrences-middle c x xs ys));
    }

alone : (u x v : Ptr) (m : Mem) → x ≢ null → IsRing (unspliced u x v m) x []
alone u x v m set = record {
  chain = (simp (test_self x), simp (test_self x));
  once = λ c. omega (arith, occ_le c x);
  set = λ c p. elim (same_or_not c x) [
    | inl e ↦ subst (λ d. d ≢ null) (sym e) set
    | inr e ↦ absurd (omega arith)
  ];
}

-- On a ring and a node outside of it, list_add puts the node first and list_add_tail puts it last.
pub add-IsRing :
    (m : Mem) (h x : Ptr) (xs : List Ptr)
    → IsRing m h xs
    → IsApart h xs x
    → ((m' : Mem) × (add h x m ≡ ok tt m') × IsRing m' h (x ∷ xs))
      × ((m' : Mem) × (add_tail h x m ≡ ok tt m') × IsRing m' h (xs ++ x ∷ []))
unfolding add add_tail
add-IsRing m h x xs v a =
    let n = Chain-next m h h [] xs v.chain in
    let v' = subst (IsRing m h) (sym (append-nil xs)) v in
    let a' = subst (λ w. IsApart h w x) (sym (append-nil xs)) a in
    let p = Chain-prev m h h xs [] v'.chain in
    let hn = v.set h (omega (arith, occ_self h)) in
    let ne = ne_of_occ x h (omega (arith, a.out)) in
    (
      (
        spliced h x (head_of xs h) m,
        subst (λ w. insert_after h x m ≡ ok tt (spliced h x w m)) n
            (insert_after-spliced h x m hn a.set ne (rw n (head_set m h [] xs v))),
        IsRing-spliced m h x [] xs v a,
      ),
      (
        spliced (last_of h xs) x h m,
        subst (λ w. insert_before h x m ≡ ok tt (spliced w x h m)) p
            (insert_before-spliced h x m hn a.set ne (rw p (last_set m h xs [] v'))),
        IsRing-spliced m h x xs [] v' a',
      ),
    )

-- list_del takes a node out of any place of a ring: what is left is a ring, and the node is one of
-- its own.
pub del-IsRing :
    (m : Mem) (h x : Ptr) (xs ys : List Ptr)
    → IsRing m h (xs ++ x ∷ ys)
    → (m' : Mem) × (del x m ≡ ok tt m') × IsRing m' h (xs ++ ys) × IsRing m' x []
del-IsRing m h x xs ys v =
    let (n, p) = middle_next m h x h xs ys v.chain in
    let xn = v.set x (omega (arith, occurrences-middle x x xs ys, occ_self x)) in
    let shorter = IsRing-unspliced m h x xs ys v in
    (
      unspliced (last_of h xs) x (head_of ys h) m,
      subst (λ w. del x m ≡ ok tt (unspliced w x (head_of ys h) m)) p
          (subst (λ w. del x m ≡ ok tt (unspliced (m.prev x) x w m)) n
            (del-unspliced x m xn
              (rw p (last_set (unspliced (last_of h xs) x (head_of ys h) m) h xs ys shorter))
              (rw n (head_set (unspliced (last_of h xs) x (head_of ys h) m) h xs ys shorter)))),
      shorter,
      alone (last_of h xs) x (head_of ys h) m xn,
    )
