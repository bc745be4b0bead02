-- ===== src/Daemon/Settings.antt =====
-- crates/usld/src/main.rs: the servers that run have the settings of the arguments.
use ussl.Prelude.{
  ◌≡◌, refl, ap, ◌∙◌, Bool, true, false, Option, none, some, inl, inr, ◌⊎◌, not, ◌&&◌, ltb,
  if◌then◌else◌,
}
use ussl.Text.{Text}
use ussl.Transport.RateLimit.{RateLimitConfig}
use ussl.Transport.Servers.{
  Listener, new_listener, with_password, with_storage, with_rate_limit, with_tls,
}
use ussl.Daemon.{
  Args, rate_limit_config, has_database, Surroundings, Startup, running, refused,
  new_or_with_password, storing, securing, limiting, make_server, server_unless, both_servers,
  load_tls, start_with, start,
}

-- A server that runs.
module _ {A : Type 0} where
  abbrev pub Runs : Startup A → Listener A → Type 0
  Runs refused l = ⊥
  Runs (running metrics tcp ws) l = (tcp ≡ some l) ⊎ (ws ≡ some l)

  -- whatever runs is `l`
  runs_same :
      (address : Bool) (disabled : Bool) (l k : Listener A) (o : Option (Listener A))
      → server_unless disabled address l ≡ some o
      → o ≡ some k
      → k ≡ l
  runs_same address true l k o h e = cc
  runs_same true false l k o h e = cc
  runs_same false false l k o h e = cc

  Runs-else :
      (b : Bool) (x : Startup A) (l : Listener A) → Runs (if b then refused else x) l → Runs x l
  Runs-else true x l h = elim h [ ]
  Runs-else false x l h = h

  running_cases :
      (l : Listener A) (ws : Option (Listener A)) (k : Listener A)
      → (◌≡◌ {A = Option (Listener A)} (some l) (some k)) ⊎ (ws ≡ some k)
      → (◌≡◌ {A = Option (Option (Listener A))} (some (some l)) (some (some k)))
        ⊎ (◌≡◌ {A = Option (Option (Listener A))} (some ws) (some (some k)))
  running_cases l ws k (inl e) = inl (ap (λ o. some o) e)
  running_cases l ws k (inr e) = inr (ap (λ o. some o) e)

  Runs-both_servers :
      (metrics : Bool) (tcp ws : Option (Option (Listener A))) (k : Listener A)
      → Runs (both_servers metrics tcp ws) k
      → (tcp ≡ some (some k)) ⊎ (ws ≡ some (some k))
  Runs-both_servers metrics none ws k h = elim h [ ]
  Runs-both_servers metrics (some tcp) none k h = elim h [ ]
  Runs-both_servers false (some none) (some none) k h = elim h [ ]
  Runs-both_servers true (some none) (some none) k (inl e) = cc
  Runs-both_servers true (some none) (some none) k (inr e) = cc
  Runs-both_servers false (some (some l)) (some ws) k h = running_cases l ws k h
  Runs-both_servers true (some (some l)) (some ws) k h = running_cases l ws k h
  Runs-both_servers false (some none) (some (some l)) k (inl e) = cc
  Runs-both_servers false (some none) (some (some l)) k (inr e) = inr (ap (λ o. some o) e)
  Runs-both_servers true (some none) (some (some l)) k (inl e) = cc
  Runs-both_servers true (some none) (some (some l)) k (inr e) = inr (ap (λ o. some o) e)

  -- a server with these settings that has accepted nobody
  abbrev pub settings : Option Text → Bool → Option RateLimitConfig → Option A → Listener A
  settings password has_storage rate_limit tls_config = record {
    client_counter = 0;
    password = password;
    has_storage = has_storage;
    rate_limit = rate_limit;
    tls_config = tls_config;
  }

  set_password : (p : Option Text) → new_or_with_password p ≡ settings p false none none
  unfolding new_listener with_password
  set_password none = refl
  set_password (some password) = refl

  set_storage :
      (p : Option Text) (b : Bool) → storing b (settings p false none none) ≡ settings p b none none
  unfolding with_storage
  set_storage p true = refl
  set_storage p false = refl

  set_tls :
      (p : Option Text) (b : Bool) (t : Option A)
      → securing t (settings p b none none) ≡ settings p b none t
  unfolding with_tls
  set_tls p b none = refl
  set_tls p b (some acceptor) = refl

  set_limit :
      (p : Option Text) (b : Bool) (t : Option A) (r : Option RateLimitConfig)
      → limiting r (settings p b none t) ≡ settings p b r t
  unfolding with_rate_limit
  set_limit p b t none = refl
  set_limit p b t (some config) = refl

  make_server-settings :
      (opens : Text → Bool) (args : Args) (t : Option A)
      → make_server opens args t
        ≡ settings args.password (has_database opens args.db) (rate_limit_config args) t
  unfolding make_server
  make_server-settings opens args t =
      ap
        (λ l.
          limiting (rate_limit_config args) (securing t (storing (has_database opens args.db) l)))
        (set_password args.password)
      ∙ ap (λ l. limiting (rate_limit_config args) (securing t l))
          (set_storage args.password (has_database opens args.db))
      ∙ ap (λ l. limiting (rate_limit_config args) l)
          (set_tls args.password (has_database opens args.db) t)
      ∙ set_limit args.password (has_database opens args.db) t (rate_limit_config args)

module _ (S : Surroundings) where
  start_with-Runs :
      (args : Args) (o : Option (Option S.rustls.Acceptor)) (l : Listener S.rustls.Acceptor)
      → Runs (start_with S args o) l
      → (t : Option S.rustls.Acceptor) × (o ≡ some t) × (l ≡ make_server S.opens args t)
  start_with-Runs args none l h = elim h [ ]
  start_with-Runs args (some t) l h =
      let metrics = ltb 0 args.metrics_port in
      let made = make_server S.opens args t in
      let tcp_address = S.is_address args.bind args.tcp_port in
      let ws_address = S.is_address args.bind args.ws_port in
      let some_runs =
        Runs-both_servers metrics (server_unless args.no_tcp tcp_address made)
          (server_unless args.no_ws ws_address made) l
          (Runs-else (metrics && not (S.is_address args.bind args.metrics_port)) _ l h) in
      (
        t,
        refl,
        elim some_runs [
          | inl e ↦ runs_same tcp_address args.no_tcp made l (some l) e refl
          | inr e ↦ runs_same ws_address args.no_ws made l (some l) e refl
        ],
      )

  -- Every server that runs has the password, the storage and the rate limit of the arguments, has
  -- accepted nobody yet, and has the TLS that was made of the files.
  pub start-Runs :
      (args : Args) (l : Listener S.rustls.Acceptor)
      → Runs (start S args) l
      → (t : Option S.rustls.Acceptor) × (load_tls S args.tls_cert args.tls_key ≡ some t)
        × (l ≡ settings args.password (has_database S.opens args.db) (rate_limit_config args) t)
  unfolding start
  start-Runs args l h =
      let (t, e, same) = start_with-Runs args (load_tls S args.tls_cert args.tls_key) l h in
      (t, e, same ∙ make_server-settings S.opens args t)
