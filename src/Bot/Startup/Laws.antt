-- ===== src/Bot/Startup/Laws.antt =====
-- When the bot starts.
use chatops.Base.{◌≡◌, ◌↔◌, refl, String, none, ◌∷◌, [], arith, sym, ap, inr, inl, Option-cases}
use chatops.Effects.{ok, err, Error, Result-cases}
use chatops.Kube.Connect.{init_client_from_kubeconfig}
use chatops.Monitoring.Client.{new_client}
use chatops.Db.Config.{data_source, auto_migrate}
use chatops.Bot.Startup.{Machine, Globals, running, initialize, env}
use chatops.Db.Config.Laws.{auto_migrate_lem}

module _ {W Q C : Type 0} (m : Machine W Q C) where
  -- What main needs of the machine to come to run with these variables.
  abbrev pub Ready : Globals W → Type 0
  Ready globals =
      (new_client m.http (env m "PROMETHEUS_URL") (env m "ALERTMANAGER_URL") ≡ ok globals.monitor)
      × ((home : String) × (m.user_home_dir ≡ ok home)
          × (init_client_from_kubeconfig m.client_go (m.join_path (home ∷ ".kube" ∷ "config" ∷ []))
              ≡ ok globals.kube))
      × (m.new_bot (env m "TELEGRAM_BOT_TOKEN") ≡ none)
      × (globals.token ≡ env m "TELEGRAM_BOT_TOKEN")

  ready-running :
      (globals : Globals W) (w : W)
      → Ready globals
      → globals.database ≡ (auto_migrate m.postgres none w).1.0
      → (initialize m w).0 ≡ running globals
  unfolding initialize
  ready-running globals w (monitor, (home, at_home, kube), bot, token) database =
      rw (monitor, at_home, kube, bot, sym token, sym database) refl

  running-ready :
      (globals : Globals W) (w : W)
      → (initialize m w).0 ≡ running globals
      → Ready globals × (globals.database ≡ (auto_migrate m.postgres none w).1.0)
  unfolding initialize
  running-ready globals w h =
      elim (Result-cases (new_client m.http (env m "PROMETHEUS_URL") (env m "ALERTMANAGER_URL"))) [
        | inr (e, q) ↦ absurd (ground (arith, q, h))
        | inl (monitor, q) ↦ elim (Result-cases m.user_home_dir) [
          | inr (e, r) ↦ absurd (ground (arith, q, r, h))
          | inl (home, r) ↦
              elim (Result-cases (
                init_client_from_kubeconfig m.client_go
                  (m.join_path (home ∷ ".kube" ∷ "config" ∷ [])))) [
                    | inr (e, k) ↦ absurd (ground (arith, q, r, k, h))
                    | inl (kube, k) ↦ elim (Option-cases (m.new_bot (env m "TELEGRAM_BOT_TOKEN"))) [
                      | inr (e, b) ↦ absurd (ground (arith, q, r, k, b, h))
                      | inl b ↦ (
                        (
                          ground (arith, q, r, k, b, h),
                          (home, r, ground (arith, q, r, k, b, h)),
                          b,
                          ground (arith, q, r, k, b, h),
                        ),
                        ground (arith, q, r, k, b, h),
                      )
                    ]
                  ]
        ]
      ]

  -- x
  pub initialize_iff :
      (globals : Globals W) (w : W)
      → ((initialize m w).0 ≡ running globals)
        ↔ (Ready globals × (globals.database ≡ (auto_migrate m.postgres none w).1.0))
  initialize_iff globals w = (running-ready globals w, λ h. ready-running globals w h.0 h.1)

  -- Where the database cannot be opened, and everything else that main needs is there, main comes
  -- to run the bot all the same, with nil for a database.
  pub initialize-without_database :
      (globals : Globals W) (e : Error) (w : W)
      → m.postgres.open_gorm (data_source m.postgres.get_env) ≡ err e
      → Ready globals
      → (initialize m w).0 ≡ running (record globals { database = none })
  initialize-without_database globals e w refused ready =
      ready-running (record globals { database = none }) w ready
        (sym (ap (λ r. r.1.0) ((auto_migrate_lem m.postgres none w).0 e refused)))
