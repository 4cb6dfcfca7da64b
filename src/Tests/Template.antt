-- ===== src/Tests/Template.antt =====
-- src/edge_config.c: the model of the template written out and loaded again.
use opcua_edge.Base.{
  ℕ, ◌≡◌, ◌≢◌, All, refl, true, false, some, [], arith, Bytes, codes, str_eq, ◌==◌, if◌then◌else◌,
}
use opcua_edge.Types.{ok}
use opcua_edge.Double.{one}
use opcua_edge.Config.Fields.{Parsed}
use opcua_edge.Config.Loader.{empty_model}
use opcua_edge.Config.Resolve.{edge_config_load}
use opcua_edge.Config.Print.{file_of}
use opcua_edge.Config.Print.Template.{template_lines, Writable}
use opcua_edge.Config.Load.{load-IsResolved}
use opcua_edge.Config.Accept.{Unwired, load-written}
use opcua_edge.Tests.Config.{template_loads}
use opcua_edge.Tests.Data.{loaded, reads_five, template}

-- The two doubles of the template, written and read.
abbrev print : ℕ → Bytes
print d = if d == one then codes "1.0" else codes "5.0"

abbrev reads_back : Bytes → Parsed
reads_back text = record {
  value = if str_eq text (codes "1.0") then one else 0x4014000000000000;
  out_of_range = false;
  converted = true;
  rest = [];
}

loaded-Writable : Writable reads_back print loaded
unfolding str_eq
loaded-Writable = ground arith

loaded-Unwired : Unwired loaded
loaded-Unwired = record {
  assets_bare = (refl, (refl, tt));
  nodes_bare = (refl, tt);
  events_bare = (refl, tt);
}

apart : All (λ a. a.id ≢ loaded.id) loaded.assets
apart = ground arith

load-written_example :
    edge_config_load reads_back (some (file_of (template_lines print loaded))) empty_model
    ≡ some (ok, loaded)
load-written_example =
    load-written reads_back print loaded
      (load-IsResolved reads_five (some template) empty_model loaded template_loads) loaded-Unwired
      apart loaded-Writable
