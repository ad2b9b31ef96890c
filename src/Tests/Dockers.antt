-- ===== src/Tests/Dockers.antt =====
-- The Docker client, with a daemon that knows every image and starts no container.
use pumpkin_pie.Prelude.{◌≡◌, refl, ◌==◌, true, ◌||◌, [], ◌∷◌, any, if◌then◌else◌}
use pumpkin_pie.Exec.{ok}
use pumpkin_pie.Docker.{Engine, stop, image_exists}
use pumpkin_pie.Docker.Create.{create}
use pumpkin_pie.Docker.Requests.{logged, Started, create-ok}
use pumpkin_pie.Docker.Pulls.{is_pull, is_absent, create-pulls}
use pumpkin_pie.Docker.Stops.{Ends, stop-Ends}
use pumpkin_pie.Docker.Listing.{Summary}
use pumpkin_pie.Tests.Nodes.{whole}
use pumpkin_pie.Tests.Polls.{command}

-- Answers 404 to a stop, 201 to everything else.
abbrev engine : Engine Unit
engine = record {
  perform = λ r d. (
    if r.path == "/containers/d1/stop?t=10"
        then ok (record { status_code = 404; body = "No such container: d1" })
        else ok (record { status_code = 201; body = "d7" }),
    d,
  );
  id_of = λ body. ok body;
  floats = whole;
  to_int64 = λ x. x;
}

create-ok_example : Started engine command "d7" (create (logged engine) command ([], tt))
unfolding create logged
create-ok_example = create-ok engine command "d7" tt refl

create-pulls_example :
    any is_pull (create (logged engine) command ([], tt)).1.0
    ≡ command.pull || is_absent (image_exists (logged engine) command.image ([], tt)).0
create-pulls_example = create-pulls engine command tt

stop-Ends_example : Ends "d1" true (stop (logged engine) "d1" true ([], tt))
unfolding stop logged
stop-Ends_example = stop-Ends engine "d1" true tt

abbrev summary : Summary
summary = record {
  id = "d1";
  container_id = "c-1";
  ports = [];
  names = "/trainer" ∷ [];
  image = "torch";
  state = "running";
  status = "Up 2 hours";
}
