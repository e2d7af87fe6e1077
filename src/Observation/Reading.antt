-- ===== src/Observation/Reading.antt =====
-- `read_observation` on every stream: the byte limit, and the document behind it.
use mcp_observatory.Prelude.{
  ℕ, ltb, leb, ◌==◌, if◌then◌else◌, Bool-cases, ==→eq, Bytes, length, null, drop, length-append,
  take-append-drop, length-drop, joined, Outcome, ok, err, Ensures, holds, rejected, Ensures-bind,
  Ensures-if, Ensures-require, zero, suc, ◌≤◌, String, ◌≡◌, refl, subst, inl, inr, true, List, [],
  ◌∷◌, ◌++◌, append_assoc, append-nil, arith,
}
use mcp_observatory.Scan.{skip_space}
use mcp_observatory.Scan.Tail.{IsTail-trans, IsRest-IsTail}
use mcp_observatory.Scan.Fuel.{skip_space-IsTail, expect-Shortens}
use mcp_observatory.Scan.Rounds.{object_body-Moves}
use mcp_observatory.Inventory.{Stream, read_inventory, dialect, Inventory}
use mcp_observatory.Inventory.WellFormed.{Occurs, IsInventoryOf}
use mcp_observatory.Inventory.Reading.{read_inventory-IsInventoryOf}
use mcp_observatory.Observation.Model.{Observation, ObservationLimits}
use mcp_observatory.Observation.Timestamp.{valid_utc_timestamp}
use mcp_observatory.Observation.Compact.{compact_json}
use mcp_observatory.Observation.Parser.{
  blocks_of, finish, embed, parse_observation, Draft, empty_draft, observation_member, has_all,
  string_stream,
}
use mcp_observatory.Observation.Reader.{read_observation, append_observation_blocks}
use mcp_observatory.Observation.WellFormed.{DraftInv, IsIdentity, observation_member-Keeps}

joined-blocks_of : (f : ℕ) (s : Bytes) → length s ≤ f → joined (blocks_of f s) ≡ s
unfolding blocks_of
joined-blocks_of zero [] h = refl
joined-blocks_of (suc f) [] h = refl
joined-blocks_of (suc f) (c ∷ s) h =
    rw (joined-blocks_of f (drop 4096 (c ∷ s)) (omega (arith, length-drop 4096 (c ∷ s))))
      (take-append-drop 4096 (c ∷ s))
joined-blocks_of zero (c ∷ s) h = absurd (omega arith)

-- A string stream delivers its text.
pub joined-string_stream : (s : Bytes) → joined (string_stream s).blocks ≡ s
joined-string_stream s = joined-blocks_of (length s) s (omega arith)

-- An observation that `read_observation` may return for a document.
pub record IsObservationOf (limits : ObservationLimits) (text : Bytes) (o : Observation)
    : Type 0 where
  pub version : o.version ≡ 1
  pub time : valid_utc_timestamp o.observed_at ≡ true
  pub observed_at : IsIdentity limits o.observed_at
  pub target_id : IsIdentity limits o.target_id
  pub source_type : IsIdentity limits o.source_type
  pub sensor_name : IsIdentity limits o.sensor_name
  pub sensor_version : IsIdentity limits o.sensor_version
  pub configuration_profile : IsIdentity limits o.configuration_profile
  -- the inventory document, as it stands in the observation document
  pub document : Bytes
  pub document_occurs : Occurs document text
  pub inventory : IsInventoryOf limits.inventory document o.inventory
  pub read : read_inventory limits.inventory (string_stream document) ≡ ok o.inventory
  pub inventory_json : o.inventory_json ≡ compact_json document

embed-Ensures {ℓ κ} :
    {A : Type ℓ} {P : A → Type κ} {r : Outcome A}
    → Ensures P r
    → Ensures (λ a. P a × (r ≡ ok a)) (embed r)
unfolding embed
embed-Ensures (holds h) = holds (h, refl)
embed-Ensures rejected = rejected

abbrev IsEmbedded : ObservationLimits → Bytes → Inventory → Type 0
IsEmbedded limits document i =
    IsInventoryOf limits.inventory document i
    × (read_inventory limits.inventory (string_stream document) ≡ ok i)

embedded :
    (limits : ObservationLimits) (document : Bytes)
    → Ensures
        (IsEmbedded limits document)
        (embed (read_inventory limits.inventory (string_stream document)))
embedded limits document = embed-Ensures (
    subst
      (λ d.
        Ensures (IsInventoryOf limits.inventory d)
          (read_inventory limits.inventory (string_stream document)))
      (joined-string_stream document)
      (read_inventory-IsInventoryOf limits.inventory (string_stream document)))

-- every flag of a draft that has all
record AllCame (x : Draft) : Type 0 where
  time : x.have_time ≡ true
  target : x.have_target ≡ true
  source : x.have_source ≡ true
  sensor : x.have_sensor ≡ true
  profile : x.have_profile ≡ true
  inventory : x.have_inventory ≡ true

has_all-AllCame : (x : Draft) → has_all x ≡ true → AllCame x
has_all-AllCame x h = ground arith

finish-Ensures :
    (limits : ObservationLimits) (text : Bytes) (x : Draft) (rest : Bytes)
    → DraftInv limits text x
    → Ensures (IsObservationOf limits text) (finish limits x rest)
unfolding finish
finish-Ensures limits text x rest h = Ensures-require (null rest) _ λ _.
    Ensures-require (has_all x) _ λ came. Ensures-require (x.out.version == 1) _ λ one.
      Ensures-bind (embedded limits x.out.inventory_json) λ inventory i.
        let c = has_all-AllCame x came in
        holds (record {
          version = ==→eq _ _ one;
          time = (h.time c.time).1;
          observed_at = (h.time c.time).0;
          target_id = h.target c.target;
          source_type = h.source c.source;
          sensor_name = h.sensor_name c.sensor;
          sensor_version = h.sensor_version c.sensor;
          configuration_profile = h.profile c.profile;
          document = x.out.inventory_json;
          document_occurs = h.inventory c.inventory;
          inventory = i.0;
          read = i.1;
          inventory_json = refl;
        })

pub parse_observation-Ensures :
    (limits : ObservationLimits) (text : Bytes)
    → Ensures (IsObservationOf limits text) (parse_observation limits text)
unfolding parse_observation
parse_observation-Ensures limits text =
    let start = skip_space-IsTail dialect text in
    Ensures-bind (expect-Shortens b'{' _ (skip_space dialect text)) λ body p.
      let enclosed = IsTail-trans (IsRest-IsTail p) start in
      Ensures-bind
        (object_body-Moves (DraftInv limits text) dialect _ _ _ (observation_member limits)
          empty_draft body
          (λ key x u h j. observation_member-Keeps limits text key x u h (IsTail-trans j enclosed))
          (record {
            time = λ e. cc;
            target = λ e. cc;
            source = λ e. cc;
            sensor_name = λ e. cc;
            sensor_version = λ e. cc;
            profile = λ e. cc;
            inventory = λ e. cc;
          }))
        λ (x, r) (h, q). finish-Ensures limits text x (skip_space dialect r) h

abbrev pub too_long : String
too_long = "observation exceeds configured byte limit"

append_observation_blocks_exact :
    (max_bytes : ℕ) (text : Bytes) (blocks : List Bytes)
    → length text ≤ max_bytes
    → append_observation_blocks max_bytes text blocks ≡ (
        if leb (length (text ++ joined blocks)) max_bytes
        then ok (text ++ joined blocks)
        else err too_long)
unfolding append_observation_blocks
append_observation_blocks_exact max_bytes text [] h = rw append-nil (ground arith)
append_observation_blocks_exact max_bytes text (block ∷ blocks) h =
    elim (Bool-cases (ltb max_bytes (length (text ++ block)))) [
      | inl over ↦
          rw (← append_assoc text block (joined blocks)) (
            ground (arith, length-append text block, length-append (text ++ block) (joined blocks)))
      | inr fits ↦ rw (← append_assoc text block (joined blocks)) (
          ground (
            arith,
            length-append text block,
            append_observation_blocks_exact max_bytes (text ++ block) blocks,
          ))
    ]

-- `read_observation` reads the blocks of the stream as one text, whatever the cuts between them: it
-- fails with the message of the byte limit exactly when that text is longer, then fails with the
-- I/O message if the stream went bad, and otherwise parses that text.
pub read_observation_exact :
    (limits : ObservationLimits) (input : Stream)
    → read_observation limits input ≡ (
        if leb (length (joined input.blocks)) limits.max_bytes
        then (if input.bad
            then err "I/O failure while reading observation"
            else parse_observation limits (joined input.blocks))
        else err too_long)
unfolding read_observation
read_observation_exact limits input =
    rw (append_observation_blocks_exact limits.max_bytes [] input.blocks (omega arith))
      (ground arith)

-- On every stream `read_observation` ends, and an observation that it returns has version 1, a
-- valid time, and in each identity field a nonempty string of at most `max_identity_bytes` bytes
-- with no quote, backslash or control byte; its inventory is what `read_inventory` returns for one
-- piece of the document, with all that `read_inventory` ensures, and its `inventory_json` is that
-- piece, compacted.
pub read_observation-IsObservationOf :
    (limits : ObservationLimits) (input : Stream)
    → Ensures (IsObservationOf limits (joined input.blocks)) (read_observation limits input)
read_observation-IsObservationOf limits input = rw read_observation_exact (
    Ensures-if (leb (length (joined input.blocks)) limits.max_bytes)
      (Ensures-if input.bad rejected (parse_observation-Ensures limits (joined input.blocks)))
      rejected)
