-- ===== src/Store/Registry.antt =====
-- The way in which the managers add an entry: put it into the map, save, and take it out again if the
-- store fails.
use mystic_hypervisor.Prelude.Maps.{GoMap, get, put, delete, get-put, get-delete}
use mystic_hypervisor.Prelude.{
  ◌≡◌, refl, ◌∙◌, none, String, Bool, true, false, arith, string_eq, if◌then◌else◌,
}
use mystic_hypervisor.Store.{Store, save, saves, save_of_saves, save_of_fails}

pub record Registry (V : Type 0) : Type 0 where
  pub entries : GoMap String V
  pub store : Store V

module _ {V : Type 0} where
  -- `m[id] = x; if err := save(); err != nil { delete(m, id); return err }`
  unfoldable pub insert : Bool → String → V → Registry V → Registry V
  insert saved id x m =
      let filled = put id x m.entries in
      let store = save saved filled m.store in
      if saves saved m.store
      then record { entries = filled; store = store }
      else record { entries = delete id filled; store = store }

  -- The entry is in the map and in the store.
  pub record Inserted (id : String) (x : V) (m n : Registry V) : Type 0 where
    pub entries : n.entries ≡ put id x m.entries
    pub store : n.store ≡ save true n.entries m.store

  pub record Kept (m n : Registry V) : Type 0 where
    pub entries : (k : String) → get k n.entries ≡ get k m.entries
    pub store : n.store ≡ m.store

  pub kept : (m : Registry V) → Kept m m
  kept m = record { entries = λ k. refl; store = refl }

  pub insert-Inserted :
      (saved : Bool) (id : String) (x : V) (m : Registry V)
      → saves saved m.store ≡ true
      → Inserted id x m (insert saved id x m)
  unfolding insert
  insert-Inserted saved id x m s =
      rw s (record { entries = refl; store = save_of_saves saved _ m.store s })

  pub insert-Kept :
      (saved : Bool) (id : String) (x : V) (m : Registry V)
      → get id m.entries ≡ none
      → saves saved m.store ≡ false
      → Kept m (insert saved id x m)
  unfolding insert
  insert-Kept saved id x m gone s = rw s (record {
    entries = λ k.
        get-delete id k (put id x m.entries)
        ∙ ground (arith, get-put id k x m.entries, string_eq.same_iff id k, gone);
    store = save_of_fails saved _ m.store s;
  })
