-- ===== src/Api/CloudEvents.antt =====
-- pkg/api/api.go: the two content modes of POST /cloudevents, compared.
use event_reactor.Base.{some, String, ◌≡◌, ◌≢◌, arith, eq_iff}
use event_reactor.Base.Dict.{lookup, insert}
use event_reactor.Base.Result.{ok}
use event_reactor.Base.Value.{str, object, Fields, entries}
use event_reactor.Message.{Event}
use event_reactor.Api.{Request, dispatched, binary_event, structured_event, handle_cloud_event}

-- A CloudEvent with an id and a type that are not empty, a source, a version and an object for
-- its data gives the same id, source, type, payload and attributes in both modes: in headers with
-- the data for a body, or whole in the body of a request with no "Ce-Type".
pub cloud_event_modes :
    (req bare : Request) (whole fs : Fields) (id source type version : String)
    → id ≢ ""
    → type ≢ ""
    → req.header "Ce-Id" ≡ id
    → req.header "Ce-Source" ≡ source
    → req.header "Ce-Type" ≡ type
    → req.header "Ce-Specversion" ≡ version
    → bare.header "Ce-Type" ≡ ""
    → lookup "id" (entries whole) ≡ some (str id)
    → lookup "source" (entries whole) ≡ some (str source)
    → lookup "type" (entries whole) ≡ some (str type)
    → lookup "specversion" (entries whole) ≡ some (str version)
    → lookup "data" (entries whole) ≡ some (object fs)
    → (binary structured : Event) × (handle_cloud_event req (ok fs) ≡ dispatched binary)
      × (handle_cloud_event bare (ok whole) ≡ dispatched structured)
      × (binary.id ≡ structured.id)
      × (binary.source ≡ structured.source)
      × (binary.type ≡ structured.type)
      × (binary.payload ≡ structured.payload)
      × ((k : String) → lookup k binary.attributes ≡ lookup k structured.attributes)
unfolding handle_cloud_event binary_event structured_event lookup insert
cloud_event_modes req bare whole fs id source type version has_id has_type h1 h2 h3 h4 h5 b1 b2 b3
      b4 b5 =
    (
      binary_event req fs,
      structured_event bare whole,
      ground (arith, eq_iff type ""),
      ground (arith, eq_iff (bare.header "Ce-Type") ""),
      ground (arith, eq_iff id ""),
      ground arith,
      ground arith,
      ground arith,
      λ k.
          rw (h2, h3, h4, b2, b3, b4)
            (ground (
              arith,
              eq_iff "specversion" k,
              eq_iff "source" k,
              eq_iff "type" k,
              eq_iff "source" "specversion",
              eq_iff "type" "specversion",
              eq_iff "type" "source",
            )),
    )
