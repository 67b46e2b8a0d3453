-- ===== src/Projector/Fenced.antt =====
-- projector.go: the optimistic fence of `checkMarker` and the resource version. Which objects no
-- write of the projector reaches.
use agent_enterprise_protoco.Common.{
  ℕ, ◌≤◌, ◌<◌, String, ◌≡◌, refl, ◌≢◌, ◌⊎◌, inl, inr, true, false, not, ◌&&◌, ◌||◌, Option, none,
  some, arith, eq_iff, ltb, Bool-cases, ◌==◌, nat_eq, string_eq,
}
use agent_enterprise_protoco.Common.Results.{
  Result, ok, err, ◌>>◌, refuse_if, >>-eq-ok, refuse_if-passed,
}
use agent_enterprise_protoco.Common.Int.{ℤ, pos, negsuc}
use agent_enterprise_protoco.Publication.Tables.{Publication}
use agent_enterprise_protoco.Publication.Relay.{Projection, foreign_owner, newer_exists}
use agent_enterprise_protoco.Common.Decimal.{parse_int}
use agent_enterprise_protoco.Projector.Markers.{Meta, check_marker, compare_marker}
use agent_enterprise_protoco.Projector.Cluster.{Object}

-- An object that the publication may take over: it is of the same deployment, is not being deleted,
-- and has a marker of the publication or of an older one.
pub record IsOurs (short_digest : String → String) (deployment_id : String) (item : Publication)
    (m : Meta) : Type 0 where
  pub owned : m.owner_label ≡ short_digest deployment_id
  pub alive : m.deleting ≡ false
  pub number : ℕ
  pub sequence_read : parse_int m.sequence ≡ some (pos number)
  pub not_newer : number ≤ item.sequence
  pub same_publication :
      (number < item.sequence)
      ⊎ ((m.operation_id ≡ item.operation_id) × (m.content_hash ≡ item.content_hash))

module _ (short_digest : String → String) (deployment_id : String) (item : Publication) where
  compared-ok :
      (m : Meta) (found : Option ℤ)
      → compare_marker short_digest deployment_id m item found ≡ ok tt
      → (n : ℕ) × (found ≡ some (pos n))
        × (n ≤ item.sequence)
        × ((n < item.sequence)
            ⊎ ((m.operation_id ≡ item.operation_id) × (m.content_hash ≡ item.content_hash)))
  unfolding compare_marker
  compared-ok m none h =
      let h' : Path (Result Projection (Unit {0})) (err foreign_owner) (ok tt) = h in cc
  compared-ok m (some (negsuc n)) h =
      let h' : Path (Result Projection (Unit {0})) (err foreign_owner) (ok tt) = h in cc
  compared-ok m (some (pos n)) h =
      let (h1, h2) =
        >>-eq-ok (refuse_if (ltb n 1) foreign_owner >> refuse_if (ltb item.sequence n) newer_exists)
          _ h in
      let (_, older) = >>-eq-ok (refuse_if (ltb n 1) foreign_owner) _ h1 in
      let not_newer = refuse_if-passed (ltb item.sequence n) newer_exists older in
      let same =
        refuse_if-passed
          (n == item.sequence
            && (not (m.operation_id == item.operation_id)
                || not (m.content_hash == item.content_hash)))
          foreign_owner h2 in
      let below : n ≤ item.sequence = ground (arith, not_newer) in
      (
        n,
        refl,
        below,
        elim (Bool-cases (n == item.sequence)) [
          | inr other ↦ inl (ground (arith, other, below))
          | inl equal ↦ inr (
            (eq_iff m.operation_id item.operation_id).0 (ground (arith, same, equal)),
            (eq_iff m.content_hash item.content_hash).0 (ground (arith, same, equal)),
          )
        ],
      )

  pub check_marker-IsOurs :
      (m : Meta)
      → check_marker short_digest deployment_id m item true ≡ ok tt
      → IsOurs short_digest deployment_id item m
  unfolding check_marker
  check_marker-IsOurs m h =
      elim (Bool-cases (m.owner_label == "" && not true && m.sequence == "")) [
        | inl unmarked ↦ let impossible : false ≡ true = ground (arith, unmarked) in cc
        | inr marked ↦
            let h' : (refuse_if (not (m.owner_label == short_digest deployment_id) || m.deleting)
                    foreign_owner
                  >> compare_marker short_digest deployment_id m item (parse_int m.sequence))
                ≡ ok tt =
              rw (check_marker, marked) at h in
            let (first, rest) =
              >>-eq-ok
                (refuse_if (not (m.owner_label == short_digest deployment_id) || m.deleting)
                  foreign_owner)
                _ h' in
            let allowed =
              refuse_if-passed (not (m.owner_label == short_digest deployment_id) || m.deleting)
                foreign_owner first in
            let (n, read, below, same) = compared-ok m (parse_int m.sequence) rest in
            record {
              owned =
                  (eq_iff m.owner_label (short_digest deployment_id)).0 (ground (arith, allowed));
              alive = ground (arith, allowed);
              number = n;
              sequence_read = read;
              not_newer = below;
              same_publication = same;
            }
      ]

-- Whether an object that was read is the one that is there when it has its resource version.
abbrev pub IsFaithful : {Spec : Type 0} → String → Option (Object Spec) → Object Spec → Type 0
IsFaithful name none o = Unit
IsFaithful name (some live) o =
    (live.meta.name ≡ name) × ((live.meta.resource_version ≢ o.meta.resource_version) ⊎ (live ≡ o))
