-- ===== src/Prometheus/Construct.antt =====
-- `New` of pkg/observability/prometheus/prometheus.go.
use postgres_sqlguard.Common.{
  ◌≡◌, ◌≢◌, refl, sym, ap, ◌∙◌, true, false, Bool-cases, inl, inr, List, [], Bool, GoString, ascii,
  In, here, there, ◌∷◌, ◌++◌, append_assoc, length, str_eq, str_eq_iff, Option, none, some,
}
use postgres_sqlguard.Errors.{GoError}
use postgres_sqlguard.Observability.{ValidationEvent}
use postgres_sqlguard.Runtime.{Outcome, returned, panicked, State, pure, ◌>>=◌, continue}
use postgres_sqlguard.Interface.{
  invoke, Interface, nil_interface, holds, ReflectKind, nilable, chan_kind, func_kind,
  interface_kind, map_kind, pointer_kind, slice_kind,
}
use postgres_sqlguard.Prometheus.{
  Client, Registerer, CounterOpts, noted, ClientCall, created, registered, Config, Metrics,
  NewMetrics, built, is_nil_registerer, metric_name_of, label_names, counter_opts, label_values,
  after_register, register_counter, new,
}

-- The kinds of values that can be nil.
abbrev pub nil_kinds : List ReflectKind
nil_kinds = chan_kind ∷ func_kind ∷ interface_kind ∷ map_kind ∷ pointer_kind ∷ slice_kind ∷ []

-- A registerer is there: its interface value is not nil, and neither is the value it holds.
abbrev pub IsPresent : {W V : Type 0} → Interface (Registerer W V) → Type 0
IsPresent registerer =
    (kind : ReflectKind) × (null : Bool) × (r : Registerer _ _) × (registerer ≡ holds kind null r)
    × (In kind nil_kinds → null ≡ false)

-- The name of the vector for a configured name: the default one if none was configured.
pub data NameFor : GoString → GoString → Type 0 where
  default_name : NameFor [] (ascii "sqlguard_validations_total")
  configured_name : {name : GoString} → name ≢ [] → NameFor name name

abbrev pub four_labels : List GoString
four_labels = ascii "service" ∷ ascii "mode" ∷ ascii "outcome" ∷ ascii "rule_id" ∷ []

In-nilable : (kind : ReflectKind) → In kind nil_kinds → nilable kind ≡ true
unfolding nilable
In-nilable kind (here e) = rw e refl
In-nilable kind (there (here e)) = rw e refl
In-nilable kind (there (there (here e))) = rw e refl
In-nilable kind (there (there (there (here e)))) = rw e refl
In-nilable kind (there (there (there (there (here e))))) = rw e refl
In-nilable kind (there (there (there (there (there (here e)))))) = rw e refl
In-nilable kind (there (there (there (there (there (there absent)))))) = elim absent [ ]

is_nil_registerer-IsPresent :
    {W V : Type 0} (registerer : Interface (Registerer W V))
    → is_nil_registerer registerer ≡ false
    → IsPresent registerer
unfolding is_nil_registerer
is_nil_registerer-IsPresent nil_interface h = absurd (cc)
is_nil_registerer-IsPresent (holds kind null r) h =
    (kind, null, r, refl, λ at. rw (In-nilable kind at, is_nil_registerer) at h)

metric_name_of-NameFor : (name : GoString) → NameFor name (metric_name_of name)
unfolding metric_name_of
metric_name_of-NameFor [] = default_name
metric_name_of-NameFor (c ∷ name) = configured_name (λ e. cc (e))

module _ {W V : Type 0} (client : Client W V) (config : Config W V) where
  -- What holds of a sink that was built, and of the calls made to build it.
  pub record IsBuilt (m : Metrics V) (calls : List (ClientCall V)) : Type 0 where
    pub registerer : IsPresent config.registerer
    pub name : GoString
    pub chosen : NameFor config.metric_name name
    pub valid : client.is_valid_metric_name name ≡ true
    pub service : (m.service ≡ config.service) × (m.service ≢ [])
    pub calls_made :
        calls
        ≡ created
            (record {
              name = name;
              help = ascii "Total number of postgres-sqlguard validation outcomes.";
            })
            four_labels
            (returned m.validations)
          ∷ registered m.validations (returned none)
          ∷ []
    pub arity : (event : ValidationEvent) → length (label_values m event) ≡ length four_labels

  -- A result is some sink only if that sink was built, with the calls made since a trace.
  abbrev Sound : List (ClientCall V) → Outcome (NewMetrics V) × State W (ClientCall V) → Type 0
  Sound trace r =
      (m : Metrics V)
      → r.0 ≡ returned (built m)
      → (calls : List (ClientCall V)) × (r.1.trace ≡ trace ++ calls) × IsBuilt m calls

  module _ (present : is_nil_registerer config.registerer ≡ false)
      (some_service : config.service ≢ [])
      (valid : client.is_valid_metric_name (metric_name_of config.metric_name) ≡ true)
      (trace : List (ClientCall V)) where
    abbrev opts : CounterOpts
    opts = counter_opts (metric_name_of config.metric_name)

    abbrev created_call : Outcome V → ClientCall V
    created_call v = created opts label_names v

    arity_of :
        (m : Metrics V) (event : ValidationEvent)
        → length (label_values m event) ≡ length four_labels
    unfolding label_values
    arity_of m event = refl

    registered-Sound :
        (v : V) (outcome : Outcome (Option GoError)) (w : W)
        → Sound trace (
            continue
              (
                outcome,
                record {
                  world = w;
                  trace = (trace ++ created_call (returned v) ∷ []) ++ registered v outcome ∷ [];
                },
              )
              (λ err. pure (after_register config.service v err)))
    unfolding after_register
    registered-Sound v panicked w m h = absurd (cc)
    registered-Sound v (returned (some err)) w m h = absurd (cc)
    registered-Sound v (returned none) w m h =
        let result : Path (Outcome (NewMetrics V))
            (returned (built (record { service = config.service; validations = v })))
            (returned (built m)) =
          h in
        let same : Path (Metrics V) (record { service = config.service; validations = v }) m =
          cc (result) in
        let vector : v ≡ m.validations = ap (λ x. x.validations) same in
        (
          created_call (returned v) ∷ registered v (returned none) ∷ [],
          append_assoc trace _ _,
          record {
            registerer = is_nil_registerer-IsPresent config.registerer present;
            name = metric_name_of config.metric_name;
            chosen = metric_name_of-NameFor config.metric_name;
            valid = valid;
            service =
                (sym (ap (λ x. x.service) same), λ e. some_service (ap (λ x. x.service) same ∙ e));
            calls_made =
                ap (λ v. created_call (returned v) ∷ registered v (returned none) ∷ []) vector;
            arity = λ event. arity_of m event;
          },
        )

    created-Sound :
        (p : Outcome V × W)
        → Sound trace (
            continue
              (p.0, record { world = p.1; trace = trace ++ created_call p.0 ∷ [] })
              (λ v. noted (registered v) (invoke config.registerer (λ r. r.register v)) >>= λ err.
                pure (after_register config.service v err)))
    unfolding noted
    created-Sound (panicked, w) m h = absurd (cc)
    created-Sound (returned v, w) m h = registered-Sound v _ _ m h

    register_counter-Sound :
        (w : W)
        → Sound trace (
            register_counter client config
              (metric_name_of config.metric_name)
              (record { world = w; trace = trace }))
    unfolding register_counter noted
    register_counter-Sound w = created-Sound (client.new_counter_vec opts label_names w)

  -- A sink that `New` returns has the configured service, which is not empty, and was built from a
  -- registerer that is there (neither a nil interface nor a nil value of a kind that has nil) and a
  -- valid metric name, the default one if none was configured: two calls were made, the creation of
  -- a vector of that name and the four labels, which has returned the vector of the sink, and the
  -- registration of this vector, which has returned nil; and every event has as many label values as
  -- the vector has labels.
  pub new-IsBuilt :
      (s : State W (ClientCall V)) (m : Metrics V)
      → (new client config s).0 ≡ returned (built m)
      → (calls : List (ClientCall V)) × ((new client config s).1.trace ≡ s.trace ++ calls)
        × IsBuilt m calls
  unfolding new
  new-IsBuilt s = elim (Bool-cases (is_nil_registerer config.registerer)) [
    | inl absent ↦ rw absent (λ m h. absurd (cc))
    | inr present ↦ elim (Bool-cases (str_eq config.service [])) [
      | inl empty ↦ rw (present, empty) (λ m h. absurd (cc))
      | inr full ↦
          elim (Bool-cases (client.is_valid_metric_name (metric_name_of config.metric_name))) [
            | inr bad ↦ rw (present, full, bad) (λ m h. absurd (cc))
            | inl valid ↦
                rw (present, full, valid)
                  (register_counter-Sound present
                    (λ e. cc (full, (str_eq_iff config.service []).1 e)) valid s.trace s.world)
          ]
    ]
  ]
