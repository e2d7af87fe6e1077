-- ===== src/Observation/WellFormed.antt =====
-- What an accepted observation document satisfies.
use mcp_observatory.Prelude.{
  ℕ, leb, &&-eq-true, leb→le, not-true→false, Bytes, ascii, length, null, All, equal, Outcome,
  Ensures, holds, rejected, Ensures-bind, Ensures-if, Ensures-require, Ensures-both, ◌≤◌, String,
  ◌≡◌, sym, subst, true, false, not, ◌&&◌,
}
use mcp_observatory.Scan.Tail.{IsTail, between-append, IsRest-IsTail, IsRest-trans}
use mcp_observatory.Scan.Fuel.{expect-Shortens, plain_string-Advances, skip_json-Shortens}
use mcp_observatory.Scan.Rounds.{Keeps, Moves, object_body-Moves, parse_uint32-Keeps}
use mcp_observatory.Scan.Plain.{is_plain, plain_string-plain}
use mcp_observatory.Inventory.{dialect}
use mcp_observatory.Inventory.WellFormed.{Occurs}
use mcp_observatory.Observation.Model.{ObservationLimits}
use mcp_observatory.Observation.Timestamp.{valid_utc_timestamp}
use mcp_observatory.Observation.Parser.{
  identity, relabel, timestamp, unknown_value, Sensor, empty_sensor, sensor_member, sensor, Draft,
  nested_member, observation_member,
}

-- a value that `identity` returns
pub record IsIdentity (limits : ObservationLimits) (value : Bytes) : Type 0 where
  pub given : null value ≡ false
  pub bound : length value ≤ limits.max_identity_bytes
  pub plain : All (λ c. is_plain c ≡ true) value

identity-Moves :
    (limits : ObservationLimits) (s : Bytes) → Moves (IsIdentity limits) s (identity limits s)
unfolding identity
identity-Moves limits s =
    Ensures-bind (Ensures-both (plain_string-Advances dialect s) (plain_string-plain dialect s))
      λ (v, r) (p, plain). Ensures-require (not (null v)) _ λ e.
        Ensures-require (leb (length v) limits.max_identity_bytes) _ λ l.
          holds
            (record { given = not-true→false (null v) e; bound = leb→le _ _ l; plain = plain }, p)

relabel-Ensures {ℓ κ} :
    {A : Type ℓ} {P : A → Type κ} (message : String) {r : Outcome A}
    → Ensures P r
    → Ensures P (relabel message r)
unfolding relabel
relabel-Ensures message (holds h) = holds h
relabel-Ensures message rejected = rejected

abbrev pub IsTime : ObservationLimits → Bytes → Type 0
IsTime limits v = IsIdentity limits v × (valid_utc_timestamp v ≡ true)

timestamp-Moves :
    (limits : ObservationLimits) (s : Bytes) → Moves (IsTime limits) s (timestamp limits s)
unfolding timestamp
timestamp-Moves limits s = relabel-Ensures _ (
    Ensures-bind (identity-Moves limits s)
      λ (v, r) (h, p). Ensures-require (valid_utc_timestamp v) _ λ e. holds ((h, e), p))

unknown_value-Keeps {ℓ} :
    {S : Type ℓ} (P : S → Type ℓ) (limits : ObservationLimits) (depth : ℕ) (x : S) (t : Bytes)
    → P x
    → Keeps P t (unknown_value limits depth x t)
unfolding unknown_value
unknown_value-Keeps P limits depth x t h =
    Ensures-bind (skip_json-Shortens dialect limits.max_nesting_depth depth t)
      λ r p. holds (h, IsRest-IsTail p)

record SensorInv (limits : ObservationLimits) (x : Sensor) : Type 0 where
  name : x.have_name ≡ true → IsIdentity limits x.name
  version : x.have_version ≡ true → IsIdentity limits x.version

sensor_member-Keeps :
    (limits : ObservationLimits) (key : Bytes) (x : Sensor) (t : Bytes)
    → SensorInv limits x
    → Keeps (SensorInv limits) t (sensor_member limits key x t)
unfolding sensor_member
sensor_member-Keeps limits key x t h =
    Ensures-if (equal key (ascii "name"))
      (Ensures-require (not x.have_name) _ λ _.
        Ensures-bind (identity-Moves limits t)
          λ (v, r) (i, p). holds (record { name = λ _. i; version = h.version }, IsRest-IsTail p))
      (Ensures-if (equal key (ascii "version"))
        (Ensures-require (not x.have_version) _ λ _.
          Ensures-bind (identity-Moves limits t)
            λ (v, r) (i, p). holds (record { name = h.name; version = λ _. i }, IsRest-IsTail p))
        (unknown_value-Keeps (SensorInv limits) limits 1 x t h))

abbrev IsSensor : ObservationLimits → Sensor → Type 0
IsSensor limits x = IsIdentity limits x.name × IsIdentity limits x.version

sensor-Moves :
    (limits : ObservationLimits) (s : Bytes) → Moves (IsSensor limits) s (sensor limits s)
unfolding sensor
sensor-Moves limits s = Ensures-bind (expect-Shortens b'{' _ s) λ body p.
    Ensures-bind
      (object_body-Moves (SensorInv limits) dialect _ _ _ (sensor_member limits) empty_sensor body
        (λ key x t h _. sensor_member-Keeps limits key x t h)
        (record { name = λ e. cc; version = λ e. cc }))
      λ (x, r) (h, q).
        Ensures-require (x.have_name && x.have_version) _ λ e.
          holds ((h.name (&&-eq-true _ _ e).0, h.version (&&-eq-true _ _ e).1), IsRest-trans q p)

-- what the fields hold once their member came
pub record DraftInv (limits : ObservationLimits) (text : Bytes) (x : Draft) : Type 0 where
  pub time : x.have_time ≡ true → IsTime limits x.out.observed_at
  pub target : x.have_target ≡ true → IsIdentity limits x.out.target_id
  pub source : x.have_source ≡ true → IsIdentity limits x.out.source_type
  pub sensor_name : x.have_sensor ≡ true → IsIdentity limits x.out.sensor_name
  pub sensor_version : x.have_sensor ≡ true → IsIdentity limits x.out.sensor_version
  pub profile : x.have_profile ≡ true → IsIdentity limits x.out.configuration_profile
  pub inventory : x.have_inventory ≡ true → Occurs x.out.inventory_json text

nested_member-Keeps :
    (limits : ObservationLimits) (text key : Bytes) (x : Draft) (t : Bytes)
    → DraftInv limits text x
    → IsTail t text
    → Keeps (DraftInv limits text) t (nested_member limits key x t)
unfolding nested_member
nested_member-Keeps limits text key x t h w =
    Ensures-if (equal key (ascii "sensor"))
      (Ensures-require (not x.have_sensor) _ λ _.
        Ensures-bind (sensor-Moves limits t) λ (v, r) (i, p). holds (
          record {
            time = h.time;
            target = h.target;
            source = h.source;
            sensor_name = λ _. i.0;
            sensor_version = λ _. i.1;
            profile = h.profile;
            inventory = h.inventory;
          },
          IsRest-IsTail p,
        ))
      (Ensures-if (equal key (ascii "configuration_profile"))
        (Ensures-require (not x.have_profile) _ λ _.
          Ensures-bind (identity-Moves limits t) λ (v, r) (i, p). holds (
            record {
              time = h.time;
              target = h.target;
              source = h.source;
              sensor_name = h.sensor_name;
              sensor_version = h.sensor_version;
              profile = λ _. i;
              inventory = h.inventory;
            },
            IsRest-IsTail p,
          ))
        (Ensures-if (equal key (ascii "inventory"))
          (Ensures-require (not x.have_inventory) _ λ _.
            Ensures-bind (skip_json-Shortens dialect limits.max_nesting_depth 0 t) λ r p. holds (
              record {
                time = h.time;
                target = h.target;
                source = h.source;
                sensor_name = h.sensor_name;
                sensor_version = h.sensor_version;
                profile = h.profile;
                inventory = λ _. record {
                  after = r;
                  stands = subst (λ u. IsTail u text) (sym (between-append (IsRest-IsTail p))) w;
                };
              },
              IsRest-IsTail p,
            ))
          (unknown_value-Keeps (DraftInv limits text) limits 0 x t h)))

pub observation_member-Keeps :
    (limits : ObservationLimits) (text key : Bytes) (x : Draft) (t : Bytes)
    → DraftInv limits text x
    → IsTail t text
    → Keeps (DraftInv limits text) t (observation_member limits key x t)
unfolding observation_member
observation_member-Keeps limits text key x t h w =
    Ensures-if (equal key (ascii "observation_version"))
      (Ensures-require (not x.have_version) _ λ _.
        Ensures-bind (parse_uint32-Keeps _ _ t) λ (n, r) (_, p). holds (
          record {
            time = h.time;
            target = h.target;
            source = h.source;
            sensor_name = h.sensor_name;
            sensor_version = h.sensor_version;
            profile = h.profile;
            inventory = h.inventory;
          },
          p,
        ))
      (Ensures-if (equal key (ascii "observed_at"))
        (Ensures-require (not x.have_time) _ λ _.
          Ensures-bind (timestamp-Moves limits t) λ (v, r) (i, p). holds (
            record {
              time = λ _. i;
              target = h.target;
              source = h.source;
              sensor_name = h.sensor_name;
              sensor_version = h.sensor_version;
              profile = h.profile;
              inventory = h.inventory;
            },
            IsRest-IsTail p,
          ))
        (Ensures-if (equal key (ascii "target_id"))
          (Ensures-require (not x.have_target) _ λ _.
            Ensures-bind (identity-Moves limits t) λ (v, r) (i, p). holds (
              record {
                time = h.time;
                target = λ _. i;
                source = h.source;
                sensor_name = h.sensor_name;
                sensor_version = h.sensor_version;
                profile = h.profile;
                inventory = h.inventory;
              },
              IsRest-IsTail p,
            ))
          (Ensures-if (equal key (ascii "source_type"))
            (Ensures-require (not x.have_source) _ λ _.
              Ensures-bind (identity-Moves limits t) λ (v, r) (i, p). holds (
                record {
                  time = h.time;
                  target = h.target;
                  source = λ _. i;
                  sensor_name = h.sensor_name;
                  sensor_version = h.sensor_version;
                  profile = h.profile;
                  inventory = h.inventory;
                },
                IsRest-IsTail p,
              ))
            (nested_member-Keeps limits text key x t h w))))
