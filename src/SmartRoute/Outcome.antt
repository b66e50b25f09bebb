-- ===== src/SmartRoute/Outcome.antt =====
-- What `SmartRouteManager::start` ends with.
use secure_tunnel_cpp.Prelude.{
  ◌<◌, ◌≡◌, refl, sym, ap, ◌∙◌, subst, ◌⊎◌, inl, inr, Bool, true, false, ◌&&◌, none, some, List, [],
  arith, ◌==◌, Bool-cases, Option-cases, length, Bytes, is_empty,
}
use secure_tunnel_cpp.NetConfig.{IpHelper, WindowsNetConfigurator}
use secure_tunnel_cpp.SmartRoute.{
  Files, Options, SmartRouteManager, load_list_file, start_worker, start_cidrs, start_domains,
  start, stop,
}
use secure_tunnel_cpp.SmartRoute.Start.{start_worker-lem}

module _ (h : IpHelper) where
  -- What a successful start leaves: the worker runs under the given options and nobody has asked it
  -- to stop, one of the lists has an entry, each list is that of its file or, where no path is
  -- given, that of the start before, and the count is that of the installed prefix routes.
  pub record Started (files : Files) (m : SmartRouteManager) (o : Options) (r : SmartRouteManager)
      (n : WindowsNetConfigurator h) : Type 0 where
    pub worker : r.worker ≡ true
    pub options : r.options ≡ o
    pub going : r.stop_requested ≡ false
    pub listed : (is_empty r.domains && is_empty r.cidrs) ≡ false
    pub old_domains : is_empty o.domain_list_path ≡ true → r.domains ≡ m.domains
    pub new_domains :
        is_empty o.domain_list_path ≡ false
        → load_list_file files o.domain_list_path ≡ some r.domains
    pub old_cidrs : is_empty o.cidr_list_path ≡ true → r.cidrs ≡ m.cidrs
    pub new_cidrs :
        is_empty o.cidr_list_path ≡ false → load_list_file files o.cidr_list_path ≡ some r.cidrs
    pub count : r.applied_route_count ≡ length n.selective_routes

  -- The list that a start uses: the file's, or the one that is there.
  abbrev IsChosenList : Files → Bytes → List Bytes → List Bytes → Type 0
  IsChosenList files path old now =
      (is_empty path ≡ true → now ≡ old)
      × (is_empty path ≡ false → load_list_file files path ≡ some now)

  worker-Started :
      (files : Files) (m : SmartRouteManager) (o : Options) (m1 : SmartRouteManager)
      (n : WindowsNetConfigurator h)
      → m1.options ≡ o
      → IsChosenList files o.domain_list_path m.domains m1.domains
      → IsChosenList files o.cidr_list_path m.cidrs m1.cidrs
      → (start_worker h m1 n).2 ≡ true
      → Started files m o (start_worker h m1 n).0 (start_worker h m1 n).1
  worker-Started files m o m1 n is_o d c ok =
      let (worker, options, going, domains, cidrs, listed, count) = start_worker-lem h m1 n ok in
      record {
        worker = worker;
        options = options ∙ is_o;
        going = going;
        listed =
            ap (λ l. is_empty l && is_empty (start_worker h m1 n).0.cidrs) domains
            ∙ (ap (λ l. is_empty m1.domains && is_empty l) cidrs ∙ listed);
        old_domains = λ e. domains ∙ d.0 e;
        new_domains = λ e. d.1 e ∙ ap some (sym domains);
        old_cidrs = λ e. cidrs ∙ c.0 e;
        new_cidrs = λ e. c.1 e ∙ ap some (sym cidrs);
        count = count;
      }

  abbrev Result : Type 0
  Result = SmartRouteManager × WindowsNetConfigurator h × Bool

  -- A list of which no path is given, one that cannot be read, and one that is read.
  list_cases :
      (files : Files) (path : Bytes)
      → (is_empty path ≡ true)
        ⊎ (((is_empty path ≡ false) × (load_list_file files path ≡ none))
            ⊎ ((es : List Bytes) × (is_empty path ≡ false) × (load_list_file files path ≡ some es)))
  list_cases files path = elim (Bool-cases (is_empty path)) [
    | inl e ↦ inl e
    | inr e ↦ elim (Option-cases (load_list_file files path)) [
      | inl at ↦ inr (inl (e, at))
      | inr (es, at) ↦ inr (inr (es, e, at))
    ]
  ]

  module _ (files : Files) (m1 : SmartRouteManager) (n : WindowsNetConfigurator h) where
    cidrs_skip :
        is_empty m1.options.cidr_list_path ≡ true → start_cidrs h files m1 n ≡ start_worker h m1 n
    unfolding start_cidrs
    cidrs_skip e = ground arith

    cidrs_fail :
        is_empty m1.options.cidr_list_path ≡ false
        → load_list_file files m1.options.cidr_list_path ≡ none
        → start_cidrs h files m1 n ≡ (record m1 { cidrs = [] }, n, false)
    unfolding start_cidrs
    cidrs_fail e at = ground arith

    cidrs_load :
        (es : List Bytes)
        → is_empty m1.options.cidr_list_path ≡ false
        → load_list_file files m1.options.cidr_list_path ≡ some es
        → start_cidrs h files m1 n ≡ start_worker h (record m1 { cidrs = es }) n
    unfolding start_cidrs
    cidrs_load es e at = ground arith

    domains_skip :
        is_empty m1.options.domain_list_path ≡ true
        → start_domains h files m1 n ≡ start_cidrs h files m1 n
    unfolding start_domains
    domains_skip e = ground arith

    domains_fail :
        is_empty m1.options.domain_list_path ≡ false
        → load_list_file files m1.options.domain_list_path ≡ none
        → start_domains h files m1 n ≡ (record m1 { domains = [] }, n, false)
    unfolding start_domains
    domains_fail e at = ground arith

    domains_load :
        (es : List Bytes)
        → is_empty m1.options.domain_list_path ≡ false
        → load_list_file files m1.options.domain_list_path ≡ some es
        → start_domains h files m1 n ≡ start_cidrs h files (record m1 { domains = es }) n
    unfolding start_domains
    domains_load es e at = ground arith

  cidrs-Started :
      (files : Files) (m m1 : SmartRouteManager) (n : WindowsNetConfigurator h)
      → IsChosenList files m1.options.domain_list_path m.domains m1.domains
      → m1.cidrs ≡ m.cidrs
      → (start_cidrs h files m1 n).2 ≡ true
      → Started files m m1.options (start_cidrs h files m1 n).0 (start_cidrs h files m1 n).1
  cidrs-Started files m m1 n d c ok = elim (list_cases files m1.options.cidr_list_path) [
    | inl e ↦
        let at = cidrs_skip files m1 n e in
        subst (λ (r : Result). Started files m m1.options r.0 r.1) (sym at)
          (worker-Started files m m1.options m1 n refl d (λ _. c, λ e'. absurd (ground arith))
            (ap (λ (r : Result). r.2) (sym at) ∙ ok))
    | inr (inl (e, missing)) ↦
        absurd (ground (arith, ap (λ (r : Result). r.2) (cidrs_fail files m1 n e missing)))
    | inr (inr (es, e, found)) ↦
        let at = cidrs_load files m1 n es e found in
        subst (λ (r : Result). Started files m m1.options r.0 r.1) (sym at)
          (worker-Started files m m1.options (record m1 { cidrs = es }) n refl d
            (λ e'. absurd (ground arith), λ _. found) (ap (λ (r : Result). r.2) (sym at) ∙ ok))
  ]

  domains-Started :
      (files : Files) (m m1 : SmartRouteManager) (n : WindowsNetConfigurator h)
      → m1.domains ≡ m.domains
      → m1.cidrs ≡ m.cidrs
      → (start_domains h files m1 n).2 ≡ true
      → Started files m m1.options (start_domains h files m1 n).0 (start_domains h files m1 n).1
  domains-Started files m m1 n d c ok = elim (list_cases files m1.options.domain_list_path) [
    | inl e ↦
        let at = domains_skip files m1 n e in
        subst (λ (r : Result). Started files m m1.options r.0 r.1) (sym at)
          (cidrs-Started files m m1 n (λ _. d, λ e'. absurd (ground arith)) c
            (ap (λ (r : Result). r.2) (sym at) ∙ ok))
    | inr (inl (e, missing)) ↦
        absurd (ground (arith, ap (λ (r : Result). r.2) (domains_fail files m1 n e missing)))
    | inr (inr (es, e, found)) ↦
        let at = domains_load files m1 n es e found in
        subst (λ (r : Result). Started files m m1.options r.0 r.1) (sym at)
          (cidrs-Started files m (record m1 { domains = es }) n
            (λ e'. absurd (ground arith), λ _. found) c (ap (λ (r : Result). r.2) (sym at) ∙ ok))
  ]

  start_refused :
      (files : Files) (m : SmartRouteManager) (n : WindowsNetConfigurator h) (o : Options)
      → (o.tunnel_luid == 0) ≡ true
      → start h files m n o ≡ (stop h m, n, false)
  unfolding start
  start_refused files m n o e = ground arith

  start_accepted :
      (files : Files) (m : SmartRouteManager) (n : WindowsNetConfigurator h) (o : Options)
      → (o.tunnel_luid == 0) ≡ false
      → start h files m n o ≡ start_domains h files (record (stop h m) { options = o }) n
  unfolding start
  start_accepted files m n o e = ground arith

  -- A successful `start` runs the worker under the given options, with nobody asking it to stop; one
  -- of its lists has an entry; each list is that of its file or, where no path is given, the one
  -- that an earlier start has left; and the count is that of the prefix routes. The tunnel is not 0.
  pub start-Started :
      (files : Files) (m : SmartRouteManager) (n : WindowsNetConfigurator h) (o : Options)
      → (start h files m n o).2 ≡ true
      → (0 < o.tunnel_luid) × Started files m o (start h files m n o).0 (start h files m n o).1
  start-Started files m n o ok = elim (Bool-cases (o.tunnel_luid == 0)) [
    | inl e ↦ absurd (ground (arith, ap (λ (r : Result). r.2) (start_refused files m n o e)))
    | inr e ↦
        let at = start_accepted files m n o e in
        (
          ground arith,
          subst (λ (r : Result). Started files m o r.0 r.1) (sym at)
              (domains-Started files m (record (stop h m) { options = o }) n refl refl
                (ap (λ (r : Result). r.2) (sym at) ∙ ok)),
        )
  ]
