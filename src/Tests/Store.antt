-- ===== src/Tests/Store.antt =====
-- The dump of the store of watched processes.
use maitland.Base.{◌≡◌, true}
use maitland.Monitor.Watch.{print_watched}
use maitland.Monitor.Watch.Printed.{is_printed, print_watched-is_watched}
use maitland.Tests.{doms}

print_watched-is_watched_example : is_printed (print_watched doms) 3 42 ≡ true
print_watched-is_watched_example = print_watched-is_watched doms 3 42
