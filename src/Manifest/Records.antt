-- ===== src/Manifest/Records.antt =====
-- A record that `LineParser` accepts.
use mcp_observatory.Prelude.{
  ◌==◌, &&-eq-true, ==→eq, not-true→false, Bytes, ascii, null, equal, Ensures, holds, rejected,
  Ensures-if, Ensures-require, Ensures-bind, Ensures-both, All, ◌≡◌, true, false, not, ◌&&◌, String,
}
use mcp_observatory.Scan.{skip_space}
use mcp_observatory.Scan.Tail.{IsRest-IsTail}
use mcp_observatory.Scan.Fuel.{skip_json-Shortens, expect-Shortens, plain_string-Advances}
use mcp_observatory.Scan.Rounds.{Keeps, Moves, object_body-Moves, parse_uint32-Keeps}
use mcp_observatory.Scan.Plain.{plain_string-plain, is_plain}
use mcp_observatory.Manifest.Model.{TargetRecord}
use mcp_observatory.Manifest.Parser.{
  dialect, max_skip_depth, Draft, empty_draft, nonempty_string, parse_kind, record_member,
  check_record, parse_record,
}

-- A record of the manifest: version 1, with an identity and a source of plain bytes.
pub record IsRecord (r : TargetRecord) : Type 0 where
  pub version : r.schema_version ≡ 1
  pub id_given : null r.target_id ≡ false
  pub id_plain : All (λ c. is_plain c ≡ true) r.target_id
  pub source_given : null r.source_type ≡ false
  pub source_plain : All (λ c. is_plain c ≡ true) r.source_type

abbrev IsName : Bytes → Type 0
IsName v = (null v ≡ false) × All (λ c. is_plain c ≡ true) v

-- what the fields hold once their member came
record DraftInv (x : Draft) : Type 0 where
  id : x.have_id ≡ true → IsName x.out.target_id
  source : x.have_source ≡ true → IsName x.out.source_type

nonempty_string-Moves : (message : String) (s : Bytes) → Moves IsName s (nonempty_string message s)
unfolding nonempty_string
nonempty_string-Moves message s =
    Ensures-bind (Ensures-both (plain_string-Advances dialect s) (plain_string-plain dialect s))
      λ (v, r) (p, plain).
        Ensures-require (not (null v)) _ λ e. holds ((not-true→false (null v) e, plain), p)

parse_kind-total : (v : Bytes) → Ensures (λ k. Unit {0}) (parse_kind v)
unfolding parse_kind
parse_kind-total v =
    Ensures-if (equal v (ascii "local_package")) (holds tt)
      (Ensures-if (equal v (ascii "remote_endpoint")) (holds tt) rejected)

record_member-Keeps :
    (key : Bytes) (x : Draft) (t : Bytes) → DraftInv x → Keeps DraftInv t (record_member key x t)
unfolding record_member
record_member-Keeps key x t h =
    Ensures-if (equal key (ascii "schema_version"))
      (Ensures-require (not x.have_schema) _ λ _.
        Ensures-bind (parse_uint32-Keeps _ _ t)
          λ (v, r) (i, p). holds (record { id = h.id; source = h.source }, p))
      (Ensures-if (equal key (ascii "target_id"))
        (Ensures-require (not x.have_id) _ λ _.
          Ensures-bind (nonempty_string-Moves _ t)
            λ (v, r) (i, p). holds (record { id = λ _. i; source = h.source }, IsRest-IsTail p))
        (Ensures-if (equal key (ascii "source_type"))
          (Ensures-require (not x.have_source) _ λ _.
            Ensures-bind (nonempty_string-Moves _ t)
              λ (v, r) (i, p). holds (record { id = h.id; source = λ _. i }, IsRest-IsTail p))
          (Ensures-if (equal key (ascii "kind"))
            (Ensures-require (not x.have_kind) _ λ _.
              Ensures-bind (plain_string-Advances dialect t) λ (v, r) p.
                Ensures-bind (parse_kind-total v)
                  λ k _. holds (record { id = h.id; source = h.source }, IsRest-IsTail p))
            (Ensures-bind (skip_json-Shortens dialect max_skip_depth 0 t)
              λ r p. holds (h, IsRest-IsTail p)))))

check_record-Ensures :
    (x : Draft) (rest : Bytes) → DraftInv x → Ensures IsRecord (check_record x rest)
unfolding check_record
check_record-Ensures x rest h = Ensures-require (null rest) _ λ _.
    Ensures-require (x.have_schema && x.have_id && x.have_source && x.have_kind) _ λ e.
      Ensures-require (x.out.schema_version == 1) _ λ v.
        let (e3, _) = &&-eq-true (x.have_schema && x.have_id && x.have_source) _ e in
        let (e2, source) = &&-eq-true (x.have_schema && x.have_id) _ e3 in
        let (_, id) = &&-eq-true x.have_schema _ e2 in
        holds (record {
          version = ==→eq _ _ v;
          id_given = (h.id id).0;
          id_plain = (h.id id).1;
          source_given = (h.source source).0;
          source_plain = (h.source source).1;
        })

-- Reading a line of a manifest always ends, and a record that it yields has version 1 and, as its
-- identity and its source, nonempty strings without quotes, backslashes and control bytes.
pub parse_record-IsRecord : (line : Bytes) → Ensures IsRecord (parse_record line)
unfolding parse_record
parse_record-IsRecord line =
    Ensures-bind (expect-Shortens b'{' _ (skip_space dialect line)) λ body _.
      Ensures-bind
        (object_body-Moves DraftInv dialect _ _ _ record_member empty_draft body
          (λ key x t h _. record_member-Keeps key x t h)
          (record { id = λ e. cc; source = λ e. cc }))
        λ (x, rest) (h, _). check_record-Ensures x (skip_space dialect rest) h
