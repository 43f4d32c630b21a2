-- ===== src/Plugin.antt =====
-- The plugin manager of plugin.go. A plugin's methods are its own, and may change the world; the
-- manager is an object of the world that `manager` and `put_manager` read and replace. Its map is
-- only asked which names it has.
pub mod Registration
pub mod Use
use gofins.Base.{
  ℕ, Bool, true, false, ◌&&◌, Option, none, some, List, [], ◌∷◌, ◌++◌, Result, ok, err, panic,
  Error, plugin_nil, plugin_name_empty, plugin_registered, plugin_initialize, plugin_connected,
  plugin_disconnected, ◌==◌, if◌then◌else◌, map,
}
use gofins.Interceptor.{Env, Effect}

-- A plugin's name: the bytes of a string.
abbrev pub Name : Type 0
Name = List ℕ

abbrev pub same_name : Name → Name → Bool
same_name [] [] = true
same_name [] (y ∷ ys) = false
same_name (x ∷ xs) [] = false
same_name (x ∷ xs) (y ∷ ys) = x == y && same_name xs ys

-- pluginManager, over the interface values of type Plugin.
pub record PluginManager (Plugin : Type 0) : Type 0 where
  pub registered : Name → Bool
  pub order : List Plugin

-- `xs[:len(xs)-1]`, which panics on an empty slice.
abbrev pub drop_last {ℓ} : {A : Type ℓ} → List A → Option (List A)
drop_last [] = none
drop_last (x ∷ xs) = elim (drop_last xs) [ none ↦ some [] | some ys ↦ some (x ∷ ys) ]

-- What a ConnectionPlugin adds to a Plugin.
pub record Hooks (World : Type 0) : Type 0 where
  pub on_connected : World → Option Error × World
  pub on_disconnected : Error → World → Option Error × World

-- The interfaces Plugin and ConnectionPlugin: the values, and their methods; `hooks` is what the
-- type assertion to ConnectionPlugin gives.
pub record Plugins (World : Type 0) : Type 1 where
  pub Plugin : Type 0
  pub name : Plugin → Name
  pub initialize : Plugin → World → Option Error × World
  pub hooks : Plugin → Option (Hooks World)

module _ (env : Env) (plugins : Plugins env.World) where
  open env use {World}
  open plugins use {Plugin, name, initialize, hooks}

  -- `pm.plugins[name] = …`, and `delete(pm.plugins, name)`
  abbrev pub mark : Name → Bool → PluginManager Plugin → PluginManager Plugin
  mark n present pm = record pm {
    registered = λ other. if same_name n other then present else pm.registered other;
  }

  abbrev pub add : Plugin → PluginManager Plugin → PluginManager Plugin
  add p pm = record (mark (name p) true pm) { order = pm.order ++ (p ∷ []) }

  -- A step that ends the caller if it fails.
  abbrev pub and_then :
      Result (Unit {0}) × World → Effect env (Unit {0}) → Result (Unit {0}) × World
  and_then (ok _, w) next = next w
  and_then (err e, w) next = (err e, w)
  and_then (panic, w) next = (panic, w)

  module _ (manager : World → PluginManager Plugin)
      (put_manager : PluginManager Plugin → World → World) (is_connected : World → Bool) where
    abbrev pub change : (PluginManager Plugin → PluginManager Plugin) → World → World
    change f w = put_manager (f (manager w)) w

    -- The end of a plugin's registration, by what OnConnected returned.
    unfoldable pub withdraw : Plugin → Error → Effect env (Unit {0})
    withdraw p e w = elim (drop_last (manager w).order) [
      | none ↦ (panic, w)
      | some order ↦ (
        err (plugin_connected e),
        change (λ pm. record (mark (name p) false pm) { order = order }) w,
      )
    ]

    abbrev pub after_connected : Plugin → Option Error × World → Result (Unit {0}) × World
    after_connected p (none, w) = (ok tt, w)
    after_connected p (some e, w) = withdraw p e w

    -- `if cp, ok := p.(ConnectionPlugin); ok && c.isConnected()`
    abbrev pub fire_connected : Plugin → Option (Hooks World) → Effect env (Unit {0})
    fire_connected p none w = (ok tt, w)
    fire_connected p (some h) w =
        if is_connected w then after_connected p (h.on_connected w) else (ok tt, w)

    abbrev pub after_initialize : Plugin → Option Error × World → Result (Unit {0}) × World
    after_initialize p (none, w) = fire_connected p (hooks p) (change (add p) w)
    after_initialize p (some e, w) = (err (plugin_initialize e), change (mark (name p) false) w)

    -- The loop's body for one plugin.
    unfoldable pub register : Plugin → Effect env (Unit {0})
    unfolding withdraw
    register p w =
        if same_name (name p) []
        then (err plugin_name_empty, w)
        else if (manager w).registered (name p)
        then (err plugin_registered, w)
        else after_initialize p (initialize p (change (mark (name p) true) w))

    -- `use`; an interface value that is nil is `none`.
    unfoldable pub use_plugins : List (Option Plugin) → Effect env (Unit {0})
    unfolding register
    use_plugins [] w = (ok tt, w)
    use_plugins (none ∷ rest) w = (err plugin_nil, w)
    use_plugins (some p ∷ rest) w = and_then (register p w) (use_plugins rest)

    abbrev pub notified : (Error → Error) → Option Error × World → Result (Unit {0}) × World
    notified wrap (none, w) = (ok tt, w)
    notified wrap (some e, w) = (err (wrap e), w)

    -- The loops of the two notifications, over a copy of the plugins.
    unfoldable pub notify_connected_each : List Plugin → Effect env (Unit {0})
    notify_connected_each [] w = (ok tt, w)
    notify_connected_each (p ∷ rest) w = elim (hooks p) [
      | none ↦ notify_connected_each rest w
      | some h ↦
          and_then (notified plugin_connected (h.on_connected w)) (notify_connected_each rest)
    ]

    unfoldable pub notify_connected : Effect env (Unit {0})
    unfolding notify_connected_each
    notify_connected w = notify_connected_each (manager w).order w

    unfoldable pub notify_disconnected_each : Error → List Plugin → Effect env (Unit {0})
    notify_disconnected_each reason [] w = (ok tt, w)
    notify_disconnected_each reason (p ∷ rest) w = elim (hooks p) [
      | none ↦ notify_disconnected_each reason rest w
      | some h ↦
          and_then (notified plugin_disconnected (h.on_disconnected reason w))
            (notify_disconnected_each reason rest)
    ]

    unfoldable pub notify_disconnected : Error → Effect env (Unit {0})
    unfolding notify_disconnected_each
    notify_disconnected reason w = notify_disconnected_each reason (manager w).order w
