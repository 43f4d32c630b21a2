-- ===== src/Plugin/Registration.antt =====
-- Registering plugins (plugin.go): the names that are taken are those of the order, each once.
use gofins.Base.{
  Bool, true, false, Option, none, some, List, [], ◌∷◌, ◌++◌, Result, ok, err, Error,
  plugin_initialize, plugin_connected, plugin_name_empty, plugin_registered, ==→≡, ==_refl,
  if◌then◌else◌, ◌≡◌, refl, sym, ap, ◌∙◌, ◌⊎◌, inl, inr, arith, Bool-cases,
}
use gofins.Interceptor.{Env}
use gofins.Plugin.{
  Name, same_name, Plugins, Hooks, PluginManager, mark, add, drop_last, register, fire_connected,
  after_initialize, after_connected, withdraw, change,
}

same_name_refl : (n : Name) → same_name n n ≡ true
same_name_refl [] = refl
same_name_refl (x ∷ xs) = rw (==_refl x, same_name_refl xs) refl

same_name→≡ : (a b : Name) → same_name a b ≡ true → a ≡ b
same_name→≡ [] [] h = refl
same_name→≡ [] (y ∷ ys) h = cc
same_name→≡ (x ∷ xs) [] h = cc
same_name→≡ (x ∷ xs) (y ∷ ys) h = ground (arith, ==→≡ x y, same_name→≡ xs ys)

same_name_sym : (a b : Name) → same_name a b ≡ false → same_name b a ≡ false
same_name_sym a b h = elim (Bool-cases (same_name b a)) [
  | inr other ↦ other
  | inl same ↦
      let e = same_name→≡ b a same in absurd (true_ne_false (sym (rw e (same_name_refl a)) ∙ h))
]
  where
    true_ne_false : ¬ (true ≡ false)
    true_ne_false p = cc

module _ (env : Env) (plugins : Plugins env.World) where
  open env use {World}
  open plugins use {Plugin, name, initialize, hooks}

  abbrev pub listed : Name → List Plugin → Bool
  listed n [] = false
  listed n (p ∷ list) = if same_name (name p) n then true else listed n list

  abbrev pub IsDistinct : List Plugin → Type 0
  IsDistinct [] = Unit
  IsDistinct (p ∷ list) = (listed (name p) list ≡ false) × IsDistinct list

  -- The map has the names of the order, which are distinct.
  pub record IsConsistent (pm : PluginManager Plugin) : Type 0 where
    pub named : (n : Name) → pm.registered n ≡ listed n pm.order
    pub distinct : IsDistinct pm.order

  listed-append :
      (n : Name) (list : List Plugin) (p : Plugin)
      → listed n (list ++ (p ∷ [])) ≡ (if same_name (name p) n then true else listed n list)
  listed-append n [] p = refl
  listed-append n (q ∷ list) p = ground (arith, listed-append n list p)

  append-IsDistinct :
      (list : List Plugin) (p : Plugin)
      → IsDistinct list
      → listed (name p) list ≡ false
      → IsDistinct (list ++ (p ∷ []))
  append-IsDistinct [] p d h = (refl, tt)
  append-IsDistinct (q ∷ list) p (fresh, d) h = elim (Bool-cases (same_name (name q) (name p))) [
    | inl same ↦ absurd (ground arith)
    | inr other ↦
        let rest : listed (name p) list ≡ false = ground arith in
        let apart : same_name (name p) (name q) ≡ false = same_name_sym (name q) (name p) other in
        (listed-append (name q) list p ∙ rw (apart, fresh) refl, append-IsDistinct list p d rest)
  ]

  drop_last-append : (list : List Plugin) (p : Plugin) → drop_last (list ++ (p ∷ [])) ≡ some list
  drop_last-append [] p = refl
  drop_last-append (q ∷ list) p = rw (drop_last-append list p) refl

  add-IsConsistent :
      (pm : PluginManager Plugin) (p : Plugin)
      → IsConsistent pm
      → pm.registered (name p) ≡ false
      → IsConsistent (add env plugins p (mark env plugins (name p) true pm))
  add-IsConsistent pm p inv free = record {
    named = λ n. let a = inv.named n in let b = listed-append n pm.order p in ground arith;
    distinct = append-IsDistinct pm.order p inv.distinct (sym (inv.named (name p)) ∙ free);
  }

  -- Giving a name back.
  unmark-IsConsistent :
      (pm : PluginManager Plugin) (name : Name) (registered : Name → Bool)
      → IsConsistent pm
      → pm.registered name ≡ false
      → ((n : Name) → same_name name n ≡ false → registered n ≡ pm.registered n)
      → IsConsistent (record {
        registered = λ n. if same_name name n then false else registered n;
        order = pm.order;
      })
  unmark-IsConsistent pm name registered inv free same = record {
    named = λ n. elim (Bool-cases (same_name name n)) [
      | inl found ↦ rw found (sym free ∙ ap pm.registered (same_name→≡ name n found) ∙ inv.named n)
      | inr other ↦ rw other (same n other ∙ inv.named n)
    ];
    distinct = inv.distinct;
  }

  module _ (manager : World → PluginManager Plugin)
      (put_manager : PluginManager Plugin → World → World) (is_connected : World → Bool)
      (manager-put_manager : (pm : PluginManager Plugin) (w : World)
        → manager (put_manager pm w) ≡ pm) where
    -- A plugin whose methods leave the manager alone.
    pub record IsQuiet (p : Plugin) : Type 0 where
      pub initialize : (w : World) → manager (initialize p w).1 ≡ manager w
      pub on_connected :
          (h : Hooks World)
          → hooks p ≡ some h
          → (w : World) → manager (h.on_connected w).1 ≡ manager w

    -- One registration: the plugin is added at the end, or an error is reported and the order is
    -- as before. The manager stays consistent.
    abbrev pub Registered : PluginManager Plugin → Plugin → Result (Unit {0}) × World → Type 0
    Registered pm p (result, w) =
        IsConsistent (manager w)
        × (((result ≡ ok tt) × ((manager w).order ≡ pm.order ++ (p ∷ [])))
            ⊎ (((e : Error) × (result ≡ err e)) × ((manager w).order ≡ pm.order)))

    withdraw-Registered :
        (pm : PluginManager Plugin) (p : Plugin) (e : Error) (w : World)
        → IsConsistent pm
        → pm.registered (name p) ≡ false
        → manager w ≡ add env plugins p (mark env plugins (name p) true pm)
        → Registered pm p (withdraw env plugins manager put_manager is_connected p e w)
    unfolding withdraw
    withdraw-Registered pm p e w inv free m =
        let left : PluginManager Plugin = record {
          registered = λ n. if same_name (name p) n then false else (manager w).registered n;
          order = pm.order;
        } in
        let order : (manager w).order ≡ pm.order ++ (p ∷ []) = ap (λ t. t.order) m in
        let ends : withdraw env plugins manager put_manager is_connected p e w
            ≡ (err (plugin_connected e), put_manager left w) =
          rw (withdraw, order, drop_last-append pm.order p) refl in
        let kept : IsConsistent left =
          unmark-IsConsistent pm (name p) (manager w).registered inv free
            (λ n other. ap (λ t. t.registered n) m ∙ rw other refl) in
        rw (ends, manager-put_manager left w) (kept, inr ((plugin_connected e, refl), refl))

    connected-Registered :
        (pm : PluginManager Plugin) (p : Plugin) (answer : Option Error × World)
        → IsConsistent pm
        → pm.registered (name p) ≡ false
        → manager answer.1 ≡ add env plugins p (mark env plugins (name p) true pm)
        → Registered pm p (after_connected env plugins manager put_manager is_connected p answer)
    connected-Registered pm p (some e, w) inv free m = withdraw-Registered pm p e w inv free m
    connected-Registered pm p (none, w) inv free m =
        rw m (add-IsConsistent pm p inv free, inl (refl, refl))

    fire-Registered :
        (pm : PluginManager Plugin) (p : Plugin) (found : Option (Hooks World)) (w : World)
        → IsConsistent pm
        → IsQuiet p
        → hooks p ≡ found
        → pm.registered (name p) ≡ false
        → manager w ≡ add env plugins p (mark env plugins (name p) true pm)
        → Registered pm p (fire_connected env plugins manager put_manager is_connected p found w)
    fire-Registered pm p none w inv quiet h free m =
        rw m (add-IsConsistent pm p inv free, inl (refl, refl))
    fire-Registered pm p (some found) w inv quiet h free m = elim (Bool-cases (is_connected w)) [
      | inl up ↦ rw up (
          connected-Registered pm p (found.on_connected w) inv free
            (quiet.on_connected found h w ∙ m))
      | inr down ↦ rw (down, m) (add-IsConsistent pm p inv free, inl (refl, refl))
    ]

    initialize-Registered :
        (pm : PluginManager Plugin) (p : Plugin) (answer : Option Error × World)
        → IsConsistent pm
        → IsQuiet p
        → pm.registered (name p) ≡ false
        → manager answer.1 ≡ mark env plugins (name p) true pm
        → Registered pm p (after_initialize env plugins manager put_manager is_connected p answer)
    initialize-Registered pm p (none, w) inv quiet free m =
        fire-Registered pm p (hooks p)
          (change env plugins manager put_manager is_connected (add env plugins p) w) inv quiet refl
          free (manager-put_manager (add env plugins p (manager w)) w ∙ ap (add env plugins p) m)
    initialize-Registered pm p (some e, w) inv quiet free m =
        let kept : IsConsistent
            (mark env plugins (name p) false (mark env plugins (name p) true pm)) =
          unmark-IsConsistent pm (name p) (mark env plugins (name p) true pm).registered inv free
            (λ n other. ground arith) in
        rw
          (
            m,
            manager-put_manager
                (mark env plugins (name p) false (mark env plugins (name p) true pm)) w,
          )
          (kept, inr ((plugin_initialize e, refl), refl))

    pub register-Registered :
        (p : Plugin) (w : World)
        → IsConsistent (manager w)
        → IsQuiet p
        → Registered (manager w) p (register env plugins manager put_manager is_connected p w)
    unfolding register
    register-Registered p w inv quiet = elim (Bool-cases (same_name (name p) [])) [
      | inl empty ↦ rw (register, empty) (inv, inr ((plugin_name_empty, refl), refl))
      | inr named ↦ elim (Bool-cases ((manager w).registered (name p))) [
        | inl taken ↦ rw (register, named, taken) (inv, inr ((plugin_registered, refl), refl))
        | inr free ↦
            rw (register, named, free)
              (initialize-Registered (manager w) p
                (initialize p (
                  change env plugins manager put_manager is_connected
                    (mark env plugins (name p) true) w))
                inv quiet free
                (quiet.initialize (
                    change env plugins manager put_manager is_connected
                      (mark env plugins (name p) true) w)
                  ∙ manager-put_manager (mark env plugins (name p) true (manager w)) w))
      ]
    ]
