-- ===== src/Resolution/Parts.antt =====
-- Each part of plan resolution is safe if its recursive calls are.
use fastcopier.Base.{
  ℕ, ◌≡◌, refl, Bool, true, false, ◌&&◌, ◌||◌, not, [], Option, some, ◌==◌, nat_eq, inl, inr,
  Bool-cases,
}
use fastcopier.Cache.{PlanKey, PlanCache, IsLawful}
use fastcopier.GoTypes.{kind, elem_of, or_panic, pointer_kind, slice_kind, array_kind}
use fastcopier.GoTypes.Kinds.{pointer_elem, slice_elem}
use fastcopier.Plan.{Plan, ptr_plan, deref_plan, addr_plan}
use fastcopier.Resolve.{
  fail, lift, ◌>>=◌, Env, Resolve, Rec, store, elem, is_flat, non_copyable, resolve_scalar_plan,
  resolve_iface_dst_plan, resolve_iface_src_plan, ptr_plan_init, deref_plan_init, addr_plan_init,
  resolve_pointer_plan, slice_plan_init, resolve_slice_plan,
}
use fastcopier.Resolution.Calm.{value, is_flat_type-IsCalm}
use fastcopier.Resolution.Safe.{
  non_copyable_type, Safe, pure-Safe, fail-Safe, lift-Safe, handle-Safe, if-Safe, store-Safe,
}

module _ (E : Env) (C : PlanCache Plan) (L : IsLawful C) where
  pub bind-Safe :
      {A B : Type 0} (m : Resolve E C A) (f : A → Resolve E C B)
      → Safe E C m
      → ((a : A) → Safe E C (f a))
      → Safe E C (m >>= f)
  bind-Safe m f h hf = handle-Safe E C m f fail h hf (fail-Safe E C)

  pub some-Safe : {A : Type 0} (o : Option A) (a : A) → o ≡ some a → Safe E C (lift (or_panic o))
  some-Safe o a e = lift-Safe E C (or_panic o) (rw e (value a refl))

  pub elem-Safe : (t e : ℕ) → elem_of (E.T.desc t) ≡ some e → Safe E C (elem E C t)
  elem-Safe t e h = some-Safe _ e h

  pub is_flat-Safe : (t : ℕ) → Safe E C (is_flat E C t)
  is_flat-Safe t =
      bind-Safe _ _ (lift-Safe E C _ (is_flat_type-IsCalm E.T E.depth t []))
        (λ r. pure-Safe E C r.0)

  pub non_copyable-Safe : (dst src : ℕ) → Safe E C (non_copyable E C dst src)
  unfolding non_copyable
  non_copyable-Safe dst src =
      if-Safe E C _ _ _ (λ _. pure-Safe E C _) (λ e. fail-Safe E C _ (non_copyable_type refl e))

  pub resolve_scalar_plan-Safe : (dst src : ℕ) → Safe E C (resolve_scalar_plan E C dst src)
  unfolding resolve_scalar_plan
  resolve_scalar_plan-Safe dst src = search (if-Safe, pure-Safe, non_copyable-Safe)

  pub resolve_iface_dst_plan-Safe : (key : PlanKey) → Safe E C (resolve_iface_dst_plan E C key)
  unfolding resolve_iface_dst_plan
  resolve_iface_dst_plan-Safe key = store-Safe E C L key _

  pub resolve_iface_src_plan-Safe : (key : PlanKey) → Safe E C (resolve_iface_src_plan E C key)
  unfolding resolve_iface_src_plan
  resolve_iface_src_plan-Safe key = store-Safe E C L key _

  abbrev pub SafeRec : Rec E C → Type 0
  SafeRec rec = (dst src : ℕ) → Safe E C (rec dst src)

  module _ (rec : Rec E C) (h : SafeRec rec) where
    pub ptr_plan_init-Safe :
        (dst src : ℕ)
        → (kind E.T dst == pointer_kind) ≡ true
        → (kind E.T src == pointer_kind) ≡ true
        → Safe E C (ptr_plan_init E C rec dst src)
    unfolding ptr_plan_init
    ptr_plan_init-Safe dst src p q =
        let (d, found) = pointer_elem (E.T.desc dst) p in
        let (s, found') = pointer_elem (E.T.desc src) q in
        bind-Safe _ _ (elem-Safe dst d found) λ d. bind-Safe _ _ (elem-Safe src s found') (h d)

    pub deref_plan_init-Safe :
        (dst src : ℕ)
        → (kind E.T src == pointer_kind) ≡ true
        → Safe E C (deref_plan_init E C rec dst src)
    unfolding deref_plan_init
    deref_plan_init-Safe dst src q =
        let (s, found) = pointer_elem (E.T.desc src) q in
        bind-Safe _ _ (elem-Safe src s found) (h dst)

    pub addr_plan_init-Safe :
        (dst src : ℕ)
        → (kind E.T dst == pointer_kind) ≡ true
        → Safe E C (addr_plan_init E C rec dst src)
    unfolding addr_plan_init
    addr_plan_init-Safe dst src q =
        let (s, found) = pointer_elem (E.T.desc dst) q in
        bind-Safe _ _ (elem-Safe dst s found) (λ d. h d src)

    pub then_store-Safe :
        (key : PlanKey) (m : Resolve E C Plan) (f : Plan → Plan)
        → Safe E C m
        → Safe E C (m >>= λ p. store E C key (f p))
    then_store-Safe key m f s = bind-Safe m _ s (λ p. store-Safe E C L key (f p))

    pub resolve_pointer_plan-Safe :
        (key : PlanKey) (dst src : ℕ)
        → (kind E.T src == pointer_kind || kind E.T dst == pointer_kind) ≡ true
        → Safe E C (resolve_pointer_plan E C rec key dst src)
    unfolding resolve_pointer_plan
    resolve_pointer_plan-Safe key dst src k = elim (Bool-cases (kind E.T src == pointer_kind)) [
      | inl p ↦ rw p (
          if-Safe E C (kind E.T dst == pointer_kind) _ _
            (λ q. then_store-Safe key _ ptr_plan (ptr_plan_init-Safe dst src q p))
            (λ _.
              if-Safe E C between _ _
                (λ _. then_store-Safe key _ deref_plan (deref_plan_init-Safe dst src p))
                (λ _. non_copyable-Safe dst src)))
      | inr p ↦ rw p (
          if-Safe E C between _ _
            (λ _. then_store-Safe key _ addr_plan (addr_plan_init-Safe dst src (rw p at k)))
            (λ _. non_copyable-Safe dst src))
    ]
      where
        between : Bool
        between = E.ctx.copy_between_ptr_and_value

    pub slice_plan_init-Safe :
        (dst src : ℕ)
        → (kind E.T dst == slice_kind || kind E.T dst == array_kind) ≡ true
        → (kind E.T src == slice_kind || kind E.T src == array_kind) ≡ true
        → Safe E C (slice_plan_init E C rec dst src)
    unfolding slice_plan_init
    slice_plan_init-Safe dst src p q =
        let (d, found) = slice_elem (E.T.desc dst) p in
        let (s, found') = slice_elem (E.T.desc src) q in
        bind-Safe _ _ (elem-Safe dst d found) λ d. bind-Safe _ _ (elem-Safe src s found') λ s.
          bind-Safe _ _ (if-Safe E C (d == s) _ _ (λ _. is_flat-Safe s) (λ _. pure-Safe E C false))
            (λ bulk.
              if-Safe E C bulk _ _ (λ _. pure-Safe E C _)
                (λ _. bind-Safe _ _ (h d s) (λ p. pure-Safe E C _)))

    pub resolve_slice_plan-Safe :
        (key : PlanKey) (dst src : ℕ)
        → (kind E.T src == slice_kind || kind E.T src == array_kind) ≡ true
        → Safe E C (resolve_slice_plan E C rec key dst src)
    unfolding resolve_slice_plan
    resolve_slice_plan-Safe key dst src q =
        if-Safe E C (not (kind E.T dst == slice_kind) && not (kind E.T dst == array_kind)) _ _
          (λ _. non_copyable-Safe dst src)
          (λ p. then_store-Safe key _ (λ p. p) (slice_plan_init-Safe dst src (either _ _ p) q))
      where
        either : (a b : Bool) → (not a && not b) ≡ false → (a || b) ≡ true
        either true b e = refl
        either false true e = refl
        either false false e = cc
