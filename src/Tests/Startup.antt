-- ===== src/Tests/Startup.antt =====
-- src/main.c: the process on the template, with a signal after two iterations of the server.
use opcua_edge.Base.{◌<◌, length, ◌≡◌, refl, none, some, [], ◌∷◌, arith, Bytes, codes, Option}
use opcua_edge.World.{ua_run_iterate, modbus_new_tcp, Log, Env}
use opcua_edge.Books.{modbus_context, iteration, books}
use opcua_edge.Books.Run.{Signalled}
use opcua_edge.Store.Schema.{version_of}
use opcua_edge.Startup.{main}
use opcua_edge.Startup.Release.{main-Released}
use opcua_edge.Startup.Owed.{Released}
use opcua_edge.Startup.Settings.{options}
use opcua_edge.Startup.Success.{Willing, ExitsWell, main-ExitsWell}
use opcua_edge.Tests.Config.{template_loads}
use opcua_edge.Tests.Data.{loaded, works, reads_five, template, iterations}

iterations_counted : (env : Env) (log : Log) → (books env iteration log).0 ≡ iterations log
iterations_counted env [] = refl
iterations_counted env (ua_run_iterate ∷ log) = omega (arith, iterations_counted env log)
iterations_counted env (modbus_new_tcp host port ∷ log) = omega (arith, iterations_counted env log)
iterations_counted env (_ ∷ log) = omega (arith, iterations_counted env log)

works-Signalled : Signalled works 2
works-Signalled log h = let same = iterations_counted works log in ground arith

-- The one file is the template, and no variable is set.
abbrev disk : Bytes → Option Bytes
disk path = some template

abbrev unset : Bytes → Option Bytes
unset name = none

main-Released_example :
    Released works modbus_context (main works reads_five disk unset (codes "opcua-edge" ∷ []) 3)
main-Released_example =
    main-Released works reads_five disk unset (codes "opcua-edge" ∷ []) 2 modbus_context
      works-Signalled

works-Willing : Willing works
unfolding version_of
works-Willing = record {
  handlers = λ l. refl;
  opens = λ l. refl;
  works = (λ l. refl, λ l. refl, λ l. refl);
  version = λ l. omega arith;
  configures = λ l. refl;
  creates = λ l. refl;
  takes = (λ l. refl, λ l. refl);
  registers = λ l. (1, refl);
}

short_host : length (options unset (codes "opcua-edge" ∷ [])).modbus_host < 64
unfolding options
short_host = omega arith

main-ExitsWell_example : ExitsWell (main works reads_five disk unset (codes "opcua-edge" ∷ []) 3)
main-ExitsWell_example =
    main-ExitsWell works reads_five disk unset (codes "opcua-edge" ∷ []) 2 loaded works-Willing
      works-Signalled short_host template_loads
