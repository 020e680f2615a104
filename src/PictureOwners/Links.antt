-- ===== src/PictureOwners/Links.antt =====
-- The links between the contexts' owners and the surfaces, and the writes that keep them.
use nvidia_vaapi_driver.Prelude.{
  ℕ, ◌<◌, ◌≤◌, ◌≡◌, ◌≢◌, refl, Option, none, some, Bool, true, false, arith, if◌then◌else◌, sym, ap,
  ◌∙◌,
}
use native.Mathlib.Decide.{ℕ_discrete}
use nvidia_vaapi_driver.PictureOwners.{
  DecodeContext, Driver, update, put_context, points_to, context_is_live, detach,
}

-- A context that the object table still has and that is not being destroyed.
pub record Serving (d : Driver) (c : ℕ) : Type 0 where
  pub live : context_is_live d (some c) ≡ true
  pub staying : (d.contexts c).destroying ≡ false
  pub locked : (d.contexts c).mutex_initialized ≡ true

-- What the owner of index `i` of context `c` knows of it.
pub record Linked (d : Driver) (c i s : ℕ) : Type 0 where
  pub in_array : i < 32
  pub handed_out : i < (d.contexts c).current_picture_id
  pub index : (d.surfaces s).picture_index ≡ some i
  pub context : (d.surfaces s).context ≡ some c
  pub context_id : (d.surfaces s).context_id ≡ (d.contexts c).id

abbrev pub IsLinked : Driver → Type 0
IsLinked d = (c i s : ℕ) → Serving d c → (d.contexts c).owners i ≡ some s → Linked d c i s

pub points_to-eq : (o : Option ℕ) (x : ℕ) → points_to o x ≡ true → o ≡ some x
points_to-eq none x h = cc
points_to-eq (some y) x h = ground arith

pub some-inj : (a b : ℕ) → ◌≡◌ {A = Option ℕ} (some a) (some b) → a ≡ b
some-inj a b h = cc

-- A surface that no serving context has as an owner.
abbrev pub Unowned : Driver → ℕ → Type 0
Unowned d s = (c i : ℕ) → Serving d c → (d.contexts c).owners i ≢ some s

pub update_self {ℓ} : {A : Type ℓ} (f : ℕ → A) (i j : ℕ) (a : A) → i ≡ j → update f i a j ≡ a
update_self f i j a e = ground arith

pub update_other {ℓ} : {A : Type ℓ} (f : ℕ → A) (i j : ℕ) (a : A) → i ≢ j → update f i a j ≡ f j
update_other f i j a n = ground arith

-- A link reads one surface and one context.
pub carried :
    (d d' : Driver) (c i s : ℕ)
    → Linked d c i s
    → d'.surfaces s ≡ d.surfaces s
    → (d.contexts c).current_picture_id ≤ (d'.contexts c).current_picture_id
    → (d'.contexts c).id ≡ (d.contexts c).id
    → Linked d' c i s
carried d d' c i s k u m e = record {
  in_array = k.in_array;
  handed_out = omega (arith, k.handed_out, m);
  index = rw u k.index;
  context = rw u k.context;
  context_id = rw u (rw e k.context_id);
}

pub detach-IsLinked : (d : Driver) (s : ℕ) → IsLinked d → Unowned d s → IsLinked (detach d s)
detach-IsLinked d s l n c i t v o =
    let w : Serving d c = record { live = v.live; staying = v.staying; locked = v.locked } in
    elim (ℕ_discrete s t) [
      | yes e ↦ absurd (n c i w (rw e o))
      | no e ↦
          carried d (detach d s) c i t (l c i t w o) (update_other d.surfaces s t _ e) (omega arith)
            refl
    ]

-- What a write to a context must keep.
pub record Keeps (d : Driver) (c : ℕ) (x : DecodeContext) : Type 0 where
  pub id : x.id ≡ (d.contexts c).id
  pub destroying : x.destroying ≡ (d.contexts c).destroying
  pub mutex : x.mutex_initialized ≡ (d.contexts c).mutex_initialized
  pub current : (d.contexts c).current_picture_id ≤ x.current_picture_id

module _ (d : Driver) (c : ℕ) (x : DecodeContext) (k : Keeps d c x) where
  pub same_id : (e : ℕ) → (update d.contexts c x e).id ≡ (d.contexts e).id
  same_id e = ground (arith, k.id)

  same_destroying : (e : ℕ) → (update d.contexts c x e).destroying ≡ (d.contexts e).destroying
  same_destroying e = ground (arith, k.destroying)

  same_mutex :
      (e : ℕ) → (update d.contexts c x e).mutex_initialized ≡ (d.contexts e).mutex_initialized
  same_mutex e = ground (arith, k.mutex)

  pub current_grows :
      (e : ℕ) → (d.contexts e).current_picture_id ≤ (update d.contexts c x e).current_picture_id
  current_grows e = ground (arith, k.current)

  pub Serving-before : (e : ℕ) → Serving (put_context d c x) e → Serving d e
  Serving-before e v = record {
    live = rw (same_id e) at v.live;
    staying = sym (same_destroying e) ∙ v.staying;
    locked = sym (same_mutex e) ∙ v.locked;
  }

  pub put_context-Linked : (e i s : ℕ) → Linked d e i s → Linked (put_context d c x) e i s
  put_context-Linked e i s l =
      carried d (put_context d c x) e i s l refl (current_grows e) (same_id e)

  -- Owners may only be taken away.
  pub fewer-IsLinked :
      IsLinked d
      → ((i s : ℕ) → x.owners i ≡ some s → (d.contexts c).owners i ≡ some s)
      → IsLinked (put_context d c x)
  fewer-IsLinked l less e i s v o = put_context-Linked e i s (
      l e i s (Serving-before e v) (elim (ℕ_discrete c e) [
        | yes q ↦
            let o' : x.owners i ≡ some s =
              ap (λ (y : DecodeContext). y.owners i) (sym (update_self d.contexts c e x q)) ∙ o in
            rw q at (less i s o')
        | no q ↦ ap (λ (y : DecodeContext). y.owners i) (sym (update_other d.contexts c e x q)) ∙ o
      ]))

-- What holds of both branches holds of the conditional.
pub if-Either {ℓ κ} :
    {A : Type ℓ} (P : A → Type κ) (b : Bool) (x y : A)
    → (b ≡ true → P x)
    → (b ≡ false → P y)
    → P (if b then x else y)
if-Either P true x y p q = p refl
if-Either P false x y p q = q refl

pub points_to_self : (o : Option ℕ) (x : ℕ) → o ≡ some x → points_to o x ≡ true
points_to_self o x h = rw h (ground arith)

-- Only the surfaces may differ.
pub record SameContexts (d e : Driver) : Type 0 where
  pub contexts : e.contexts ≡ d.contexts
  pub ids : e.context_of_id ≡ d.context_of_id
  pub slots : e.surface_at ≡ d.surface_at

pub Serving-same : (d d' : Driver) (e : ℕ) → SameContexts d d' → Serving d' e → Serving d e
Serving-same d d' e k v = record {
  live = rw (k.contexts, k.ids) at v.live;
  staying = rw k.contexts at v.staying;
  locked = rw k.contexts at v.locked;
}
