-- ===== src/Xdp/Measure/Records.antt =====
-- What `xdp_dispatch` records of a packet, and what stands before a packet that it redirects.
use aceteam_bachelor_thesis.Prelude.{
  ℕ, ◌≡◌, ◌≢◌, ◌⊎◌, ◌↔◌, refl, sym, ap, subst, ◌∙◌, Option, none, some, List, arith, true, false,
  ◌>>=◌,
}
use aceteam_bachelor_thesis.Abi.{
  PacketKey, PacketKey-discrete, RxMeta, IngressRecord, path_pass, path_cpumap, path_xsk,
  forward_all_pass, effective_requested_path, rx_meta_magic, rx_meta_version, rx_meta_size,
  has_flag, meta_packet_id_valid, meta_hwts_valid, meta_timestamp_error,
}
use aceteam_bachelor_thesis.Abi.HashMap.{HashMap, update_keeps}
use aceteam_bachelor_thesis.Abi.Stat
use aceteam_bachelor_thesis.Abi.Stat.{Stats, count_stat}
use aceteam_bachelor_thesis.Xdp.{Parsed, unrelated, invalid, experiment, parse_experiment_packet}
use aceteam_bachelor_thesis.Xdp.Envelope.{IsExperimentPacket, parse_inv}
use aceteam_bachelor_thesis.Xdp.Measure.{
  Helpers, Timestamp, stamp, failed, xdp_redirect, dispatch_requested_path, base_meta, stamp_meta,
  ingress_record, State, Outcome, record_ingress, write_meta, prepare_in,
  prepare_measurement_metadata, deliver, handle, xdp_dispatch,
}

-- The metadata that a consumer of this packet's key, path and arrival takes for valid.
pub record Describes (e : Helpers) (key : PacketKey) (path : ℕ) (m : RxMeta) : Type 0 where
  pub magic : m.magic ≡ rx_meta_magic
  pub version : m.version ≡ rx_meta_version
  pub size : m.size ≡ rx_meta_size
  pub identified : has_flag m.flags meta_packet_id_valid ≡ true
  pub flow_id : m.flow_id ≡ key.flow_id
  pub sequence : m.sequence ≡ key.sequence
  pub requested_path : m.requested_path ≡ path
  pub initial_xdp_ns : m.initial_xdp_ns ≡ e.now
  pub rx_queue : m.rx_queue ≡ e.rx_queue
  -- The hardware time is valid exactly if the driver gave one, and then it is that one.
  pub hwts_valid :
      (has_flag m.flags meta_hwts_valid ≡ true) ↔ ((ns : ℕ) × (e.rx_timestamp ≡ stamp ns))
  pub hw_rx_ns : (ns : ℕ) → e.rx_timestamp ≡ stamp ns → m.hw_rx_ns ≡ ns
  pub hwts_failed :
      (has_flag m.flags meta_timestamp_error ≡ true) ↔ (has_flag m.flags meta_hwts_valid ≡ false)

stamp_meta-Describes :
    (e : Helpers) (key : PacketKey) (path : ℕ) (t : Timestamp)
    → e.rx_timestamp ≡ t
    → Describes e key path (stamp_meta t (base_meta e key path)).0
unfolding stamp_meta base_meta
stamp_meta-Describes e key path (stamp ns) h = record {
  magic = refl;
  version = refl;
  size = refl;
  identified = refl;
  flow_id = refl;
  sequence = refl;
  requested_path = refl;
  initial_xdp_ns = refl;
  rx_queue = refl;
  hwts_valid = (λ _. (ns, h), λ _. refl);
  hw_rx_ns = λ k g. cc;
  hwts_failed = (λ g. cc, λ g. cc);
}
stamp_meta-Describes e key path (failed err) h = record {
  magic = refl;
  version = refl;
  size = refl;
  identified = refl;
  flow_id = refl;
  sequence = refl;
  requested_path = refl;
  initial_xdp_ns = refl;
  rx_queue = refl;
  hwts_valid = (λ g. cc, λ g. let d = g.1 in cc);
  hw_rx_ns = λ k g. cc;
  hwts_failed = (λ _. refl, λ _. refl);
}

module _ (ingress : HashMap PacketKey IngressRecord) where
  prepared-Describes :
      (room : Option ℕ) (e : Helpers) (key : PacketKey) (path : ℕ) (s : State ingress) (m : RxMeta)
      → (prepare_in ingress room e key path s).0 ≡ some m
      → Describes e key path m
  unfolding prepare_in write_meta
  prepared-Describes none e key path s m h = cc
  prepared-Describes (some room) e key path s m h =
      let d = stamp_meta-Describes e key path e.rx_timestamp refl in
      let is_that : (stamp_meta e.rx_timestamp (base_meta e key path)).0 ≡ m = ground arith in
      subst (Describes e key path) is_that d

  -- The parser's result behind a run of the program.
  dispatch_inv :
      (mode : ℕ) (e : Helpers) (p : List ℕ) (s : State ingress) (o : Outcome ingress)
      → xdp_dispatch ingress mode e p s ≡ some o
      → (a : Parsed) × (t : Stats) × (parse_experiment_packet p (count_stat s.stats Stat.total)
          ≡ some (a, t))
        × (handle ingress mode e a (record s { stats = t }) ≡ o)
  unfolding xdp_dispatch
  dispatch_inv mode e p s o h =
      go (parse_experiment_packet p (count_stat s.stats Stat.total)) refl h
    where
      go :
          (parsed : Option (Parsed × Stats))
          → parse_experiment_packet p (count_stat s.stats Stat.total) ≡ parsed
          → (parsed >>= λ (a, t). some (handle ingress mode e a (record s { stats = t }))) ≡ some o
          → (a : Parsed) × (t : Stats) × (parse_experiment_packet p (count_stat s.stats Stat.total)
              ≡ some (a, t))
            × (handle ingress mode e a (record s { stats = t }) ≡ o)
      go none e' h = cc
      go (some (a, t)) e' h = (a, t, e', cc)

  deliver_redirects :
      (e : Helpers) (path : ℕ) (meta : Option RxMeta) (s : State ingress)
      → (deliver ingress e path meta s).action ≡ xdp_redirect
      → (m : RxMeta) × (meta ≡ some m)
        × ((deliver ingress e path meta s).meta ≡ some m)
        × ((path ≡ path_cpumap) ⊎ (path ≡ path_xsk))
  unfolding deliver dispatch_requested_path
  deliver_redirects e path none s h = cc
  deliver_redirects e path (some m) s h = (m, refl, refl, ground arith)

  handle_redirects :
      (mode : ℕ) (e : Helpers) (a : Parsed) (s : State ingress)
      → (handle ingress mode e a s).action ≡ xdp_redirect
      → (key : PacketKey) × (path : ℕ) × (m : RxMeta) × (a ≡ experiment key path)
        × ((handle ingress mode e a s).meta ≡ some m)
        × Describes e key (effective_requested_path mode path) m
        × ((effective_requested_path mode path ≡ path_cpumap)
            ⊎ (effective_requested_path mode path ≡ path_xsk))
  unfolding handle
  handle_redirects mode e unrelated s h = cc
  handle_redirects mode e invalid s h = cc
  handle_redirects mode e (experiment key path) s h =
      let effective = effective_requested_path mode path in
      let prepared = prepare_measurement_metadata ingress e key effective s in
      let (m, ready, same, kind) = deliver_redirects e effective prepared.0 prepared.1 h in
      (
        key,
        path,
        m,
        refl,
        same,
        prepared-Describes e.meta_room e key effective s m
            (unfold prepare_measurement_metadata in ready),
        kind,
      )

  -- A packet is redirected only if its bytes are an experiment packet, for a path that the
  -- forwarding mode does not turn into PASS, and with metadata in front of it that describes this
  -- packet's identity, this path and this arrival.
  pub xdp_dispatch_redirect :
      (mode : ℕ) (e : Helpers) (p : List ℕ) (s : State ingress) (o : Outcome ingress)
      → xdp_dispatch ingress mode e p s ≡ some o
      → o.action ≡ xdp_redirect
      → (key : PacketKey) × (path : ℕ) × (m : RxMeta) × IsExperimentPacket p key path
        × (o.meta ≡ some m)
        × Describes e key (effective_requested_path mode path) m
        × ((effective_requested_path mode path ≡ path_cpumap)
            ⊎ (effective_requested_path mode path ≡ path_xsk))
  xdp_dispatch_redirect mode e p s o h r =
      let (a, t, found, same) = dispatch_inv mode e p s o h in
      let (key, path, m, is_it, meta, d, kind) =
        handle_redirects mode e a (record s { stats = t })
          (ap (λ (x : Outcome ingress). x.action) same ∙ r) in
      let parsed : parse_experiment_packet p (count_stat s.stats Stat.total)
          ≡ some (experiment key path, t) =
        found ∙ ap (λ (x : Parsed). some (x, t)) is_it in
      (
        key,
        path,
        m,
        (parse_inv p (count_stat s.stats Stat.total) t key path parsed).0,
        ap (λ (x : Outcome ingress). x.meta) (sym same) ∙ meta,
        d,
        kind,
      )

  effective_all_pass : (path : ℕ) → effective_requested_path forward_all_pass path ≡ path_pass
  unfolding effective_requested_path
  effective_all_pass path = refl

  -- In the mode all-pass no packet is redirected, whatever it holds.
  pub xdp_dispatch_all_pass :
      (e : Helpers) (p : List ℕ) (s : State ingress) (o : Outcome ingress)
      → xdp_dispatch ingress forward_all_pass e p s ≡ some o
      → o.action ≢ xdp_redirect
  xdp_dispatch_all_pass e p s o h r =
      let (key, path, m, v, meta, d, kind) = xdp_dispatch_redirect forward_all_pass e p s o h r in
      ground (arith, effective_all_pass path)

  record_keeps :
      (key j : PacketKey) (meta : RxMeta) (v : IngressRecord) (s : State ingress)
      → ingress.lookup s.records j ≡ some v
      → ingress.lookup (record_ingress ingress key meta s).records j ≡ some v
  unfolding record_ingress
  record_keeps key j meta v s h =
      update_keeps PacketKey-discrete ingress s.records key j v (ingress_record key meta) h

  prepare_keeps :
      (room : Option ℕ) (e : Helpers) (key : PacketKey) (path : ℕ) (s : State ingress)
      (j : PacketKey) (v : IngressRecord)
      → ingress.lookup s.records j ≡ some v
      → ingress.lookup (prepare_in ingress room e key path s).1.records j ≡ some v
  unfolding prepare_in write_meta
  prepare_keeps none e key path s j v h = h
  prepare_keeps (some room) e key path s j v h =
      let (meta, id) = stamp_meta e.rx_timestamp (base_meta e key path) in
      ground (arith, record_keeps key j meta v (record s { stats = count_stat s.stats id }) h)

  deliver_records :
      (e : Helpers) (path : ℕ) (meta : Option RxMeta) (s : State ingress)
      → (deliver ingress e path meta s).state.records ≡ s.records
  unfolding deliver
  deliver_records e path none s = refl
  deliver_records e path (some m) s = refl

  handle_keeps :
      (mode : ℕ) (e : Helpers) (a : Parsed) (s : State ingress) (j : PacketKey) (v : IngressRecord)
      → ingress.lookup s.records j ≡ some v
      → ingress.lookup (handle ingress mode e a s).state.records j ≡ some v
  unfolding handle
  handle_keeps mode e unrelated s j v h = h
  handle_keeps mode e invalid s j v h = h
  handle_keeps mode e (experiment key path) s j v h =
      let effective = effective_requested_path mode path in
      let prepared = prepare_measurement_metadata ingress e key effective s in
      ap (λ (r : ingress.Map). ingress.lookup r j)
        (deliver_records e effective prepared.0 prepared.1)
      ∙ (unfold prepare_measurement_metadata in prepare_keeps e.meta_room e key effective s j v h)

  -- The first observation of a packet identity stays: no later packet, with the same key or
  -- another, changes a record that is in the ingress map.
  pub xdp_dispatch_keeps_first :
      (mode : ℕ) (e : Helpers) (p : List ℕ) (s : State ingress) (o : Outcome ingress)
      (j : PacketKey) (v : IngressRecord)
      → xdp_dispatch ingress mode e p s ≡ some o
      → ingress.lookup s.records j ≡ some v
      → ingress.lookup o.state.records j ≡ some v
  xdp_dispatch_keeps_first mode e p s o j v h found =
      let (a, t, parsed, same) = dispatch_inv mode e p s o h in
      ap (λ (x : Outcome ingress). ingress.lookup x.state.records j) (sym same)
      ∙ handle_keeps mode e a (record s { stats = t }) j v found
