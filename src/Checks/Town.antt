-- ===== src/Checks/Town.antt =====
-- A small town: a contributor's package with a staged build of theirs and one of the project, a
-- maintainer, and one release of edge.
use omarchy_cli.Base.{[], arith, codes, false, none, some, ◌∷◌}
use omarchy_cli.Blocks.Packages.{Town}
use omarchy_cli.Checks.Releases.{one_release}
use omarchy_cli.Checks.Samples.{factory, no_row}
use omarchy_cli.Factory.Reply.{after}
use omarchy_cli.Factory.Rows.{Contributor, Registration, Role, Stage, Status, Store, Task, Trust}
use omarchy_cli.Review.Approve.{handle_approve}
use omarchy_cli.World.Vouched.{Trusted}

abbrev pub ada : Contributor
ada = record { login = "ada"; role = Role.contributor; blocked = none }

abbrev pub mona : Contributor
mona = record { login = "mona"; role = Role.maintainer; blocked = none }

abbrev pub hello : Registration
hello = record {
  name = "hello";
  owner = "ada";
  status = Stage.staged;
  detail = none;
  updated_at = 0;
  category = none;
  request_id = some 5;
  url = codes "https://github.com/ada/hello";
  arches = "x86_64" ∷ [];
  project = some (codes "https://github.com/ada/hello");
  source = none;
  release = some (codes "v1.0");
  description = none;
  license = none;
  pkgbuild_path = none;
  detected_tag = none;
  blocked = none;
}

-- Ada's staged build, and the project's.
abbrev pub adas_staged : Task
adas_staged =
    let row : Task = no_row 2 "hello" Status.staged Trust.community in
    record row { owner = some "ada" }

abbrev pub projects_staged : Task
projects_staged =
    let row : Task = no_row 3 "hello" Status.staged Trust.project in
    record row { publish = false; owner = some "ada" }

abbrev pub reviewed : Store
reviewed = record factory {
  tasks = projects_staged ∷ adas_staged ∷ factory.tasks;
  next_task = 4;
  registrations = hello ∷ [];
  contributors = ada ∷ mona ∷ [];
  staging_objects = (record { task_id = 3; key = codes "3/hello-1.0-1-x86_64.pkg.tar.zst" }) ∷ [];
}

abbrev pub town : Town
town = record { factory = reviewed; releases = one_release }

-- The store behind Mona's approval of the project's build.
abbrev pub approved : Store
approved = after reviewed (handle_approve mona 3 none 50 reviewed)

pub reviewed-Trusted : Trusted reviewed
reviewed-Trusted = record {
  queue = record { keys = omega arith; rows = ground arith };
  vouched = ground arith;
}
