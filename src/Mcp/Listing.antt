-- ===== src/Mcp/Listing.antt =====
-- pkg/mcp/mcp.go: the descriptions of the tools, `ListTools`.
use event_reactor.Base.{List, [], ◌∷◌, String}
use event_reactor.Base.Dict.{Dict}

pub record Property : Type 0 where
  pub type : String
  pub description : String

-- Tool, with the properties and the required names of its input schema, an object's.
pub record Tool : Type 0 where
  pub name : String
  pub description : String
  pub properties : Dict Property
  pub required : List String

abbrev pub property : String → String → Property
property type description = record { type = type; description = description }

unfoldable pub list_tools : List Tool
list_tools =
    record {
      name = "list_providers";
      description = "List all registered reactor providers";
      properties = [];
      required = [];
    }
    ∷ record {
      name = "validate_config";
      description = "Validate an event-reactor server configuration";
      properties = ("config", property "string" "YAML config content") ∷ [];
      required = "config" ∷ [];
    }
    ∷ record {
      name = "test_cel_expression";
      description = "Evaluate a CEL expression against an event";
      properties =
          ("expression", property "string" "CEL expression")
          ∷ ("event", property "object" "Event data as JSON")
          ∷ [];
      required = "expression" ∷ "event" ∷ [];
    }
    ∷ record {
      name = "render_template";
      description = "Render a Go template against event data";
      properties =
          ("template", property "string" "Go template string")
          ∷ ("event", property "object" "Event data as JSON")
          ∷ [];
      required = "template" ∷ "event" ∷ [];
    }
    ∷ record {
      name = "test_reactor";
      description = "Dry-run a reactor config against an event, resolving all inputs";
      properties =
          ("config", property "string" "YAML config content")
          ∷ ("reactor", property "string" "Reactor name")
          ∷ ("event", property "object" "Event data as JSON")
          ∷ [];
      required = "config" ∷ "reactor" ∷ "event" ∷ [];
    }
    ∷ record {
      name = "list_event_sources";
      description = "List supported event source types";
      properties = [];
      required = [];
    }
    ∷ []
