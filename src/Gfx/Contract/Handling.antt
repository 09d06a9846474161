-- ===== src/Gfx/Contract/Handling.antt =====
-- The commands of crates/drift-gfx/src/client.rs that change surfaces and cache slots, and the contract
-- of a FrameSink.
use drift.Base.{
  ℕ, ◌≡◌, refl, sym, ap, ◌∙◌, Bool, true, false, Option, none, some, [], ◌∷◌, ◌++◌, fun_ext,
  is_some, Result, ok, err, arith, if◌then◌else◌,
}
use drift.Base.Maps.{nat_key}
use drift.Base.Maps
use drift.Core.Geometry.{Size, Point, Rect, size}
use drift.Gfx.Codecs.{Codecs}
use drift.Gfx.Monad.{◌>>=◌, ◌>>◌, check, return}
use drift.Gfx.State.{
  GfxState, GfxError, PixelFormat, Surface, surface, create, delete, cache_store, cache_evict,
  check_slot, reset, ensure_within, source,
}
use drift.Gfx.Sink.{SinkCall, View, accept, accept_all, put}
use drift.Gfx.Sink as Sink
use drift.Gfx.Pdu.{Rect16, GfxPdu}
use drift.Gfx.Client
use drift.Gfx.Client.{Client, Method, tell, rect_of, store_in_cache, keep_state}
use drift.Gfx.Handler.{handle_pdu, forget_tiles, keep_found, map_surface}
use drift.Gfx.Contract.{view, size_of, surface-get, Behaves, silent, told, tell-Behaves, checked}
use drift.Gfx.Contract.Drawing.{ensure_within-fits}

view-insert_slot :
    (s : GfxState) (slot : ℕ) (b : Size ℕ)
    → view (record s { cache = Maps.insert slot b s.cache })
      ≡ record (view s) { slots = put (view s).slots slot (some b) }
view-insert_slot s slot b =
    ap (λ (f : ℕ → Option (Size ℕ)). record (view s) { slots = f })
      (fun_ext λ j. Maps.get-insert j slot b s.cache)

view-remove_slot :
    (s : GfxState) (slot : ℕ)
    → view (record s { cache = Maps.remove slot s.cache })
      ≡ record (view s) { slots = put (view s).slots slot none }
view-remove_slot s slot =
    ap (λ (f : ℕ → Option (Size ℕ)). record (view s) { slots = f })
      (fun_ext λ j. Maps.get-remove j slot s.cache)

view-insert_surface :
    (s : GfxState) (id : ℕ) (f : Surface)
    → view (record s { surfaces = Maps.insert id f s.surfaces })
      ≡ record (view s) { surfaces = put (view s).surfaces id (some f.size) }
view-insert_surface s id f =
    ap (λ (g : ℕ → Option (Size ℕ)). record (view s) { surfaces = g })
      (fun_ext λ j. ground (arith, Maps.get-insert j id f s.surfaces))

view-remove_surface :
    (s : GfxState) (id : ℕ)
    → view (record s { surfaces = Maps.remove id s.surfaces })
      ≡ record (view s) { surfaces = put (view s).surfaces id none }
view-remove_surface s id =
    ap (λ (g : ℕ → Option (Size ℕ)). record (view s) { surfaces = g })
      (fun_ext λ j. ground (arith, Maps.get-remove j id s.surfaces))

create-ok :
    {D : Type 0} (s s' : GfxState) (id : ℕ) (b : Size ℕ) (format : PixelFormat)
    → create {D = D} s id b format ≡ ok s'
    → (Maps.get id s.surfaces ≡ none)
      × (record s { surfaces = Maps.insert id (record { size = b; format = format }) s.surfaces }
          ≡ s')
unfolding create Maps.contains_key
create-ok s s' id b format e = ground arith

cache_store-ok :
    {D : Type 0} (s s' : GfxState) (slot : ℕ) (b : Size ℕ)
    → cache_store {D = D} s slot b ≡ ok s'
    → record s { cache = Maps.insert slot b s.cache } ≡ s'
unfolding cache_store check_slot
cache_store-ok s s' slot b e = ground arith

cache_evict-ok :
    {D : Type 0} (s s' : GfxState) (slot : ℕ) (found : Bool)
    → cache_evict {D = D} s slot ≡ ok (s', found)
    → (record s { cache = Maps.remove slot s.cache } ≡ s')
      × (is_some (Maps.get slot s.cache) ≡ found)
unfolding cache_evict check_slot
cache_evict-ok s s' slot found e = ground arith

is_some-size_of : (o : Option Surface) → is_some (size_of o) ≡ is_some o
is_some-size_of none = refl
is_some-size_of (some s) = refl

remove-none :
    {V : Type 0} (i : ℕ) (m : Maps.BTreeMap ℕ V)
    → is_some (Maps.get i m) ≡ false
    → Maps.remove i m ≡ m
unfolding Maps.get Maps.remove
remove-none i [] e = refl
remove-none i ((j, v) ∷ m) e = ground (arith, remove-none i m)

module _ (k : Codecs) where
  kept :
      {B : Type 0} (r : Result (GfxError k.Detail) GfxState) (f : Unit {0} → Method k B)
      (c : Client k)
      → ((s : GfxState) → r ≡ ok s → Behaves k c (f tt (record c { state = s })))
      → Behaves k c ((keep_state k r >>= f) c)
  kept (ok s) f c h = h s refl
  kept (err e) f c h = (refl, refl)

  pub reset_graphics-Behaves :
      (output : Size ℕ) (c : Client k) → Behaves k c (Client.reset_graphics k output c)
  unfolding Client.reset_graphics reset accept
  reset_graphics-Behaves output c =
      told k (Sink.resets output) c (Client.reset_graphics k output c).1 refl
        (unfold Maps.get in refl)

  -- A call that tells the sink of a change of the state.
  tells :
      (call : SinkCall k.Frame) (c c' : Client k)
      → c'.sink ≡ c.sink
      → accept call (view c.state) ≡ some (view c'.state)
      → Behaves k c (tell k call c')
  tells call c c' e a = told k call c (tell k call c').1 (ap (λ l. l ++ call ∷ []) e) a

  with_state : Client k → GfxState → Client k
  with_state c s = record c { state = s }

  pub create-Behaves :
      (id : ℕ) (b : Size ℕ) (format : PixelFormat) (c : Client k)
      → Behaves k c (handle_pdu k (GfxPdu.create_surface id b format) c)
  unfolding handle_pdu accept with_state
  create-Behaves id b format c =
      kept (create c.state id b format) (λ u. forget_tiles k id >> tell k (Sink.creates id b)) c
        λ s e.
          let (absent, stored) = create-ok c.state s id b format e in
          tells (Sink.creates id b) c (forget_tiles k id (with_state c s)).1 refl
            (rw absent (ap some (sym (view-insert_surface c.state id _) ∙ ap view stored)))

  deleted :
      (id : ℕ) (b : Bool) (c : Client k)
      → is_some (Maps.get id c.state.surfaces) ≡ b
      → Behaves k c (
          (if b then (forget_tiles k id >> tell k (Sink.deletes id)) else return tt)
            (with_state c (delete c.state id).0))
  unfolding delete accept with_state
  deleted id true c e =
      tells (Sink.deletes id) c (forget_tiles k id (with_state c (delete c.state id).0)).1 refl (
        rw (is_some-size_of (Maps.get id c.state.surfaces), e)
          (ap some (sym (view-remove_surface c.state id))))
  deleted id false c e =
      silent k c (with_state c (delete c.state id).0) refl
        (ap (λ m. record c.state { surfaces = m }) (remove-none id c.state.surfaces e))

  pub delete-Behaves :
      (id : ℕ) (c : Client k) → Behaves k c (handle_pdu k (GfxPdu.delete_surface id) c)
  unfolding handle_pdu delete with_state
  delete-Behaves id c = deleted id (is_some (Maps.get id c.state.surfaces)) c refl

  pub map-Behaves : (id : ℕ) (p : Point ℕ) (c : Client k) → Behaves k c (map_surface k id p c)
  unfolding accept
  map-Behaves id p c =
      checked k (surface c.state id) (λ s. tell k (Sink.maps id p)) c
        λ s e. tell-Behaves k (Sink.maps id p) c (rw (surface-get c.state id s e) refl)

  evicted :
      (slot : ℕ) (b : Bool) (s : GfxState) (c : Client k)
      → (record c.state { cache = Maps.remove slot c.state.cache } ≡ s)
      → is_some (Maps.get slot c.state.cache) ≡ b
      → Behaves k c ((if b then tell k (Sink.evicts slot) else return tt) (with_state c s))
  unfolding accept with_state
  evicted slot true s c p e =
      tells (Sink.evicts slot) c (with_state c s) refl
        (rw e (ap some (sym (view-remove_slot c.state slot) ∙ ap view p)))
  evicted slot false s c p e =
      silent k c (with_state c s) refl
        (sym p ∙ ap (λ m. record c.state { cache = m }) (remove-none slot c.state.cache e))

  found_kept :
      {B : Type 0} (r : Result (GfxError k.Detail) (GfxState × Bool)) (f : Bool → Method k B)
      (c : Client k)
      → ((s : GfxState) (b : Bool) → r ≡ ok (s, b) → Behaves k c (f b (record c { state = s })))
      → Behaves k c ((keep_found k r >>= f) c)
  found_kept (ok (s, b)) f c h = h s b refl
  found_kept (err e) f c h = (refl, refl)

  pub evict-Behaves :
      (slot : ℕ) (c : Client k) → Behaves k c (handle_pdu k (GfxPdu.evict_cache_entry slot) c)
  unfolding handle_pdu with_state
  evict-Behaves slot c =
      found_kept (cache_evict c.state slot)
        (λ b. if b then tell k (Sink.evicts slot) else return tt) c
        λ s b e.
          let (removed, found) = cache_evict-ok c.state s slot b e in
          evicted slot b s c removed found

  pub surface_to_cache-Behaves :
      (id slot : ℕ) (r : Rect16) (c : Client k)
      → Behaves k c (Client.surface_to_cache k id slot r c)
  unfolding Client.surface_to_cache accept with_state
  surface_to_cache-Behaves id slot r16 c =
      let store : Rect → Method k (Unit {0}) =
        λ r. store_in_cache k slot (size r) >> tell k (Sink.caches id r slot) in
      let within : Surface → Rect → Method k (Unit {0}) =
        λ s r. check (ensure_within id s.size r source) >>= λ u. store r in
      checked k (surface c.state id) (λ s. check (rect_of k r16) >>= within s) c
        λ s p. checked k (rect_of k r16) (within s) c λ r q.
          checked k (ensure_within id s.size r source) (λ u. store r) c
            λ u w.
              kept (cache_store c.state slot (size r)) (λ v. tell k (Sink.caches id r slot)) c
                λ t e. tells (Sink.caches id r slot) c (with_state c t) refl (
                  rw (surface-get c.state id s p, ensure_within-fits k id s.size r source u w)
                    (ap some (
                      sym (view-insert_slot c.state slot (size r))
                      ∙ ap view (cache_store-ok c.state t slot (size r) e))))
